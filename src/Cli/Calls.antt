-- ===== src/Cli/Calls.antt =====
-- The calls of services that a command line leads to (hadoop/cloud/cli.py).
use ec2_wrappers.Prelude.{ℕ, Bool, String, Option, none, some, List, not}
use ec2_wrappers.Prelude.{
  Result, ok, raised, value_error, index_error, get_elem?, is_empty, string_eq,
}
use ec2_wrappers.Prelude.{nat_eq, ◌==◌}
use ec2_wrappers.Prelude.Number.{to_int}
use ec2_wrappers.Prelude.Dict.{Dict}
use ec2_wrappers.Util.{Value, text, lines, flag, port}
use ec2_wrappers.Service.{InstanceTemplate}
use ec2_wrappers.Service.Zookeeper.{ServiceClass}

-- `vars(options)`, in which an option that was not given is `none`, and the arguments behind it.
pub record Parsed : Type 0 where
  pub options : Dict String (Option Value)
  pub args : List String

-- What stands around the program: optparse for the options of each command, the section of a cluster
-- in the files that are there, and the home directory.
pub record Console : Type 0 where
  pub parse_args : String → List String → Result Parsed
  pub config_section : List String → String → Option (Dict String String)
  pub home : String

-- The method of the service with its arguments.
pub data Call : Type 0 where
  list_all list : Call
  launch_master : InstanceTemplate → String → Option Value → Call
  launch_slaves : InstanceTemplate → Call
  launch_cluster : List InstanceTemplate → String → Option Value → Option Value → Call
  login : Option Value → Call
  proxy : Option Value → Option Value → Call
  push : Option Value → String → Call
  execute : Option Value → List String → Call
  terminate_cluster : Bool → Call
  delete_cluster : Call
  create_formatted_snapshot : ℕ → Option Value → String → Option Value → Option Value → Call
  list_storage : Call
  create_storage : String → ℕ → Option Value → String → Call
  attach_storage : String → Call
  delete_storage : Bool → Call
  update_slaves_file : String → Option Value → Option Value → Call

-- The call, on the service and the cluster of a provider; `list_all` has no cluster.
pub record Plan : Type 0 where
  pub service : ServiceClass
  pub provider : String
  pub cluster : Option String
  pub call : Call

abbrev pub Flow : Type 0 → Type 0
Flow A = Result A

infixl 5 ◌>>=◌ ◌>>◌
abbrev pub ◌>>=◌ : {A B : Type 0} → Flow A → (A → Flow B) → Flow B
m >>= f = elim m [ ok a ↦ f a | raised e ↦ raised e ]

abbrev pub ◌>>◌ : {A B : Type 0} → Flow A → Flow B → Flow B
m >> k = m >>= λ _. k

-- `args[n]`
abbrev pub word : List String → ℕ → Flow String
word args n = elim (get_elem? args n) [ none ↦ raised index_error | some s ↦ ok s ]

-- `int(args[n])`
unfoldable pub number : List String → ℕ → Flow ℕ
number args n = do s ← word args n; elim (to_int s) [ none ↦ raised value_error | some k ↦ ok k ]

-- Python's truth of a value
unfoldable pub truthy : Value → Bool
truthy (text s) = not (s == "")
truthy (lines ss) = not (is_empty ss)
truthy (flag b) = b
truthy (port n) = not (n == 0)
