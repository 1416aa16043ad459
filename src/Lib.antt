-- ===== src/Lib.antt =====
-- RulesAnalyzer (rulan) reads the security policy of a firewall and looks for anomalies in its
-- rules: a rule is a predicate over packets with an action, a predicate is compiled to a binary
-- decision diagram, and the analyzer compares the diagram of each rule with what the rules in
-- front of it have accepted, denied and left.
--
-- The parts, from the bottom:
-- - Base: names, Boolean tests and list functions that all modules share.
-- - Bdd: the interface to BuDDy (dep/buddy) as the record Buddy, its operations with the laws that
--   its documentation gives. The instance Bdd/TruthTable, over four packets, runs the tests.
-- - Mnode (src/model/mnode.cpp): Mnode::is_subset, overlaps, compare and so on, on diagrams.
-- - Range, Domain, Mvalue (src/model/rangeimpl.h, domain.cpp, domains.cpp, mvalue.cpp): the bounds
--   of a value, the thirteen variables of the model, and the diagram of a range over one of them.
-- - Group (src/model/group.h): a tree of named items; the diagram is a disjunction. A group is told
--   apart by its address, like the pointers of the source.
-- - Options (src/tools/options.h), Zone, Address, Service, Application, User (src/model/zone.cpp,
--   address.cpp, service.cpp, protocol.cpp, ports.cpp, application.cpp, user.cpp, url.cpp): the
--   objects that a rule names, with their diagrams and their Any groups.
-- - Predicate, Rule, RuleList (src/model/predicate.cpp, rule.cpp, rulelist.cpp): the conjunction of
--   the groups of a rule, the rule, and the lists with their filters. Predicate/Projection is about the
--   diagram that leaves parts of a predicate out.
-- - RuleList/Zones: all_zones and all_src_zones, which list the zones that the rules use.
-- - State (src/model/state.cpp): the packets accepted, denied and left. State/FirstMatch defines,
--   apart from the code, what a firewall does with a packet: the first rule that matches decides.
-- - Anomaly, Analyzer (src/model/anomaly.cpp, analyzer.cpp): the reports, and check_anomaly with its
--   cache, which passes State from rule to rule. Analyzer/Explains says what a report means,
--   Analyzer/Verdict is about check_rule, Analyzer/Run about the whole loop, and Analyzer/Removal
--   about the consequences for a policy. Analyzer/Symmetry is check_symmetry, over
--   Predicate/Symmetrical; Predicate/Turned says what the predicate the other way is of a packet, and
--   Analyzer/Symmetry/Turned what the pairs are.
-- - Comparator (src/model/comparator.cpp): two lists of rules compared by what they allow and deny.
-- - NamedList (src/model/mnode.h): NamedMnodeList, a list of nodes with the set of their names, which
--   push_back and remove change. Its sort is a call of std::list::sort and is not modelled.
-- - Firewall (src/model/firewall.cpp, src/cli/fw/clifwoption.cpp): the rules that a firewall owns, and
--   the list and the map of pointers to them.
-- - PacketTester (src/model/packettester.cpp): is_packet_allowed.
--   PacketTester/Given says part by part what the traffic and a rule are of a packet.
-- - Strutil, Csv (src/tools/strutil.cpp, csvparser.cpp): the text of a record, and the state machine
--   that reads it. A text is the list of the codes of its characters.
-- - Split (src/tools/strutil.cpp): split and trim. The fuel of the loop is the length of the text.
-- - CsvReader (src/tools/csvreader.cpp): the rows of the selected columns. CsvReader/Rows is
--   about the two loops, and CsvReader/Selected about the values that a row gets.
-- - Match (src/tools/match.cpp): the match of a name with wildcards. Match/Wildcards says what a
--   pattern means; the fuel of the loop is counted from the lengths of the text and the pattern.
-- - Strutil/Numbers, Strutil/Case, Format (src/tools/strutil.cpp, dep/fmtlib): str2num and its users,
--   the functions on case, and the record of what the code takes from fmt::format.
-- - ServiceParser (src/model/serviceparser.cpp): the protocol and the ports of a service in text.
-- - IpConvertor, Ipv4Parser, Ipv6Parser (src/model/ipconvertor.cpp, ipv4parser.cpp, ipv6parser.cpp):
--   addresses, subnets and ranges in text. inet_pton and inet_ntop are the record Inet.
-- - Ipv4Range, Ipv6Range (src/model/ipv4range.cpp, ipv6range.cpp): the text of a range.
-- - AddressParser (src/model/address.cpp): an address from text, by the IP model of the network.
-- - Cache, IdGenerator (src/model/cache.h, idgen.cpp): the objects and the identifiers by name.
-- - Network (src/model/network.cpp): the caches, the generators and the firewalls; Network/Register
--   and Network/Groups have the register operations, which pass the network from call to call.
-- - ObjectDictionary, ObjectStore (src/ostore/objectdictionary.h, objectstore.cpp): the objects and the
--   pools by their names. ObjectStore/Rows and ObjectStore/AddressRows make the objects of the rows of
--   a file.
-- - GenericResolver (src/ostore/genericresolver.h): the members of a pool, by a walk with a stack.
--   GenericResolver/Members says what a pool stands for, GenericResolver/Expansion is about the answer,
--   GenericResolver/Loops about the exception, and GenericResolver/Fuel, with GenericResolver/Chain,
--   about the fuel, which is counted from the numbers of the pools and of their members.
-- - PolicyReader (src/ostore/policyreader.cpp): a rule from a row of a policy.
-- - FirewallFactory (src/ostore/firewallfactory.cpp): the groups of a rule from the store and the
--   network (FirewallFactory/Kinds, Builds), and the loop that adds the rules (FirewallFactory/Rules).
--   FirewallFactory/Found is about the groups of pools that it asks the network for.
--   The answers of the name servers are a parameter.
--
-- Objects are told apart by an address, a number, where the source compares pointers. Errors are
-- values: a failed cache lookup (std::out_of_range) and an interrupt are the cases of Error. The
-- integers of the source are below 2 ^ 8, 2 ^ 16, 2 ^ 32 or 2 ^ 128, and a difference of bounds wraps
-- at the width of its type. Every loop is a recursion on a list, but those of match, of split, of the
-- resolver of pools and of the digits of a number, which have fuel counted from the lengths of their
-- texts, from the sizes of the dictionaries or from the number.
--
-- Not modelled: the allocation of the variables in BuDDy, the printing of nodes and of tables, the
-- progress bar, the log, the queries to the name servers, the command line, and the reading of files,
-- which are input and output. Nor are the lists of addresses, services, applications, users and URLs
-- of a policy.
pub mod Base
pub mod Bdd
pub mod Mnode
pub mod Range
pub mod Domain
pub mod Mvalue
pub mod Group
pub mod Cache
pub mod IdGenerator
pub mod Options
pub mod NamedList
pub mod Zone
pub mod Service
pub mod ServiceParser
pub mod Application
pub mod Address
pub mod User
pub mod Predicate
pub mod Rule
pub mod RuleList
pub mod State
pub mod Anomaly
pub mod Comparator
pub mod Firewall
pub mod Network
pub mod GenericResolver
pub mod PolicyReader
pub mod ObjectDictionary
pub mod ObjectStore
pub mod FirewallFactory
pub mod PacketTester
pub mod Analyzer
pub mod Strutil
pub mod Csv
pub mod Split
pub mod Format
pub mod IpConvertor
pub mod Ipv4Parser
pub mod Ipv4Range
pub mod Ipv6Parser
pub mod Ipv6Range
pub mod AddressParser
pub mod Match
pub mod CsvReader
pub mod Samples
