-- ===== src/User.antt =====
-- src/model/user.cpp and src/model/url.cpp: users and urls, whose diagrams count only where the
-- model has the option.
use Prim.Native.String.{String}
use text.Mathlib.Text.{◌==◌ as str_eq}
use rules_analyzer.Base.{ℕ, if◌then◌else◌}
use rules_analyzer.Bdd.{Buddy}
use rules_analyzer.Options.{ModelOption, ModelOptions}
use rules_analyzer.Options
use rules_analyzer.Domain.{DomainType, create_full_range, create_singleton}
use rules_analyzer.Domain
use rules_analyzer.Mvalue.{Mvalue}
use rules_analyzer.Mvalue as Value
use rules_analyzer.Group.{Node, Group, group, item, nil, any_group}

-- User and Url differ in their domain and in the option that they ask for.
pub record User : Type 0 where
  pub address : ℕ
  pub name : String
  pub value : Mvalue
  pub options : ModelOptions

abbrev full : DomainType → ℕ → User
full dt a = record {
  address = a;
  name = "any";
  value = record { domain = dt; range = create_full_range dt };
  options = Options.empty;
}

abbrev single : DomainType → ℕ → String → ℕ → ModelOptions → User
single dt a n id options = record {
  address = a;
  name = n;
  value = record { domain = dt; range = create_singleton dt id };
  options = options;
}

abbrev pub create_user : ℕ → String → ℕ → ModelOptions → User
create_user = single Domain.user

abbrev pub any_user : ℕ → User
any_user = full Domain.user

abbrev pub create_url : ℕ → String → ℕ → ModelOptions → User
create_url a url url_id options =
    if str_eq url "any" then full Domain.url a else single Domain.url a url url_id options

abbrev pub any_url : ℕ → User
any_url = full Domain.url

abbrev pub UserGroup : Type 0
UserGroup = Group User

abbrev pub any_user_group : ℕ → ℕ → UserGroup
any_user_group a b = group any_group a "$any-usr-group" (item (any_user b) nil)

abbrev pub any_url_group : ℕ → ℕ → UserGroup
any_url_group a b = group any_group a "$any-url-group" (item (any_url b) nil)

module _ (L : Buddy) where
  open L use {Bdd, bddtrue}

  abbrev pub optional_bdd : ModelOption → User → Bdd
  optional_bdd o u = if u.options.contains o then Value.make_bdd L u.value else bddtrue

  abbrev pub user_node : Node L User
  user_node = record {
    address = λ u. u.address;
    name = λ u. u.name;
    make_bdd = optional_bdd Options.user;
  }

  abbrev pub url_node : Node L User
  url_node = record {
    address = λ u. u.address;
    name = λ u. u.name;
    make_bdd = optional_bdd Options.url;
  }
