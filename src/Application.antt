-- ===== src/Application.antt =====
-- src/model/application.h and src/model/application.cpp: applications with their default services.
use rules_analyzer.Base.{ℕ, Bool, true, false, if◌then◌else◌, String, List, [], ◌∷◌}
use rules_analyzer.Bdd.{Buddy}
use rules_analyzer.Options.{ModelOptions}
use rules_analyzer.Options
use rules_analyzer.Domain.{create_full_range, create_singleton}
use rules_analyzer.Domain
use rules_analyzer.Mvalue.{Mvalue}
use rules_analyzer.Mvalue as Value
use rules_analyzer.Group.{
  Node, Group, group, item, nil, plain, any_group, app_default, items, add_item,
}
use rules_analyzer.Group
use rules_analyzer.Service.{Service, ServiceGroup, service_node, any_service_group}

pub record Application : Type 0 where
  pub address : ℕ
  pub name : String
  -- AnyApplication, which overrides `make_bdd`.
  pub is_any_application : Bool
  pub value : Mvalue
  pub use_app_svc : Bool
  pub services : ServiceGroup
  pub options : ModelOptions

abbrev pub create : ℕ → String → ℕ → ServiceGroup → ModelOptions → Bool → Application
create a n app_id services options use_app_svc = record {
  address = a;
  name = n;
  is_any_application = false;
  value = record {
    domain = Domain.application;
    range = create_singleton Domain.application app_id;
  };
  use_app_svc = use_app_svc;
  services = services;
  options = options;
}

-- The constructor that combines an application with other services.
abbrev pub with_services : ℕ → Application → ServiceGroup → Application
with_services a other services = record {
  address = a;
  name = other.name;
  is_any_application = false;
  value = record { domain = Domain.application; range = other.value.range };
  use_app_svc = true;
  services = services;
  options = other.options;
}

abbrev pub any_application : ℕ → ℕ → ℕ → Application
any_application a b c = record {
  address = a;
  name = "any";
  is_any_application = true;
  value = record { domain = Domain.application; range = create_full_range Domain.application };
  use_app_svc = true;
  services = any_service_group b c;
  options = Options.empty;
}

abbrev pub ApplicationGroup : Type 0
ApplicationGroup = Group Application

abbrev pub any_application_group : ℕ → ℕ → ℕ → ℕ → ApplicationGroup
any_application_group a b c d =
    group any_group a "$any-app-group" (item (any_application b c d) nil)

module _ (L : Buddy) where
  open L use {Bdd, bddtrue, bdd_and}

  unfoldable pub application_bdd : Application → Bdd
  application_bdd x =
      let result =
        if x.options.contains Options.application
        then bdd_and bddtrue (Value.make_bdd L x.value)
        else bddtrue in
      if x.is_any_application
      then bddtrue
      else if x.use_app_svc
      then bdd_and result (Group.make_bdd (service_node L) x.services)
      else result

  abbrev pub application_node : Node L Application
  application_node = record {
    address = λ x. x.address;
    name = λ x. x.name;
    make_bdd = application_bdd;
  }

  -- The loops of `default_services`: the services of each application, added one by one.
  unfoldable pub add_services : ServiceGroup → List Service → ServiceGroup
  add_services g [] = g
  add_services g (s ∷ ss) = add_services (add_item (service_node L) g s) ss

  unfoldable pub add_applications : ServiceGroup → List Application → ServiceGroup
  add_applications g [] = g
  add_applications g (x ∷ xs) =
      add_applications (add_services g (items (service_node L) x.services)) xs

  -- A new AppDefaultServiceGroup at the given address.
  unfoldable pub default_services : ℕ → ApplicationGroup → ServiceGroup
  unfolding add_applications
  default_services a g =
      add_applications (group app_default a "$app-default-svc" nil) (items application_node g)
