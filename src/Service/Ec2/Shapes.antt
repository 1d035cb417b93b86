-- ===== src/Service/Ec2/Shapes.antt =====
-- EC2 as Ec2Cluster and Ec2Storage (hadoop/cloud/providers/ec2.py) call it together, the files that they
-- read, and the loops that wait for EC2.
use ec2_wrappers.Prelude.{
  ℕ, zero, suc, String, Option, none, some, List, [], ◌∷◌, Result, ok, raised,
}
use ec2_wrappers.Prelude.{index_error, keyboard_interrupt, string_eq, ◌==◌, if◌then◌else◌}
use ec2_wrappers.Prelude.Dict.{Dict}
use ec2_wrappers.Ec2.{Reservation}
use ec2_wrappers.Cluster.{Compute}
use ec2_wrappers.Storage.{Volumes, Volume, VolumeSpec}

pub record Account : Type 1 where
  pub compute : Compute
  -- a volume of a size in a zone, from a snapshot
  pub create_volume : ℕ → String → String → compute.Cloud → Result String × compute.Cloud
  pub get_all_volumes : List String → compute.Cloud → Result (List Volume)
  pub attach_volume : String → String → String → compute.Cloud → Result (Unit {0}) × compute.Cloud
  pub delete_volume : String → compute.Cloud → Result (Unit {0}) × compute.Cloud
  -- an image with a key and a placement, and the defaults of boto for the rest
  pub run_instance :
      String → Option String → Option String → compute.Cloud → Result Reservation × compute.Cloud
  -- the public DNS name of an instance, read again
  pub update : String → compute.Cloud → Result String
  -- a volume that is made from no snapshot
  pub create_blank_volume : ℕ → Option String → compute.Cloud → Result String × compute.Cloud
  pub detach_volume : String → String → compute.Cloud → Result (Unit {0}) × compute.Cloud
  pub create_snapshot : String → compute.Cloud → Result String × compute.Cloud
  -- What the program meets while it waits: the clock and the answer of EC2 in the n-th turn of a loop,
  -- and what EC2 has become once the loop is over.
  pub clock : ℕ → ℕ
  pub instances_at : List String → ℕ → compute.Cloud → Result (List Reservation)
  pub volumes_at : String → ℕ → compute.Cloud → Result (List Volume)
  pub later : compute.Cloud → compute.Cloud
  -- The file of the user data, and the file of the specifications of volumes, parsed.
  pub read_file : String → Result String
  pub gzip : String → String
  pub read_specs : String → Result (Dict String (List VolumeSpec))

-- The part of the account that the storage of a cluster sees.
abbrev pub volumes : Account → Volumes
volumes E = record {
  Cloud = E.compute.Cloud;
  create_volume = E.create_volume;
  get_all_volumes = E.get_all_volumes;
  attach = E.attach_volume;
  delete = E.delete_volume;
}

-- The loop of `_wait_for_volume`, on fuel, from turn `n` on. It has no limit of time; `none` means that
-- the fuel ran out.
unfoldable pub wait_for_volume : ℕ → (ℕ → Result (List Volume)) → ℕ → Option (Result (Unit {0}))
wait_for_volume zero poll n = none
wait_for_volume (suc fuel) poll n =
    let again = wait_for_volume fuel poll (suc n) in
    elim (poll n) [
      | raised e ↦ some (raised e)
      | ok [] ↦ some (raised index_error)
      | ok (v ∷ vs) ↦ if v.status == "available" then some (ok tt) else again
    ]

-- The user ends a wait that outlasts the fuel.
unfoldable pub in_time : Option (Result (Unit {0})) → Result (Unit {0})
in_time none = raised keyboard_interrupt
in_time (some r) = r
