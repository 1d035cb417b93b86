-- ===== src/Cli/Confirmed.antt =====
-- What the user is asked before machines or data are lost (hadoop/cloud/cli.py, hadoop/cloud/service.py).
use ec2_wrappers.Prelude.{ℕ, false, String, ◌≡◌, refl, string_eq, ◌==◌, none, []}
use ec2_wrappers.Prelude.{Result, ok, raised, ◌>>=◌, return}
use ec2_wrappers.Prelude.Number.{lower}
use ec2_wrappers.Service.{Provider, Host, World, on, prompt, terminate_cluster, delete_storage}
use ec2_wrappers.Service.Hadoop.{Polls}
use ec2_wrappers.Service.Zookeeper.{ServiceClass, hadoop_service, zookeeper_service}
use ec2_wrappers.Cli.{Call}
use ec2_wrappers.Cli.Perform.{perform, perform_hadoop, perform_zookeeper, perform_any}

module _ (P : Provider) (H : Host) where
  only-first : (q : Result (Unit {0}) × World P) → ((λ w. q) >>= λ _. return tt) q.1 ≡ q
  only-first (ok tt, w) = refl
  only-first (raised e, w) = refl

  kept_running :
      (answers : (question : String) → (lower (H.raw_input question) == "yes") ≡ false)
      (w : World P)
      → terminate_cluster P H false w ≡ on P (P.print_status []) w
  unfolding terminate_cluster prompt
  kept_running answers w =
      rw (answers "Terminate all instances? [yes or no]: ")
        (only-first (on P (P.print_status []) w))

  kept_storage :
      (answers : (question : String) → (lower (H.raw_input question) == "yes") ≡ false)
      (w : World P)
      → delete_storage P H false w ≡ on P (P.print_storage none) w
  unfolding delete_storage prompt
  kept_storage answers w =
      rw
        (answers
          "Delete all storage volumes? THIS WILL       PERMANENTLY DELETE ALL DATA [yes or no]: ")
        (only-first (on P (P.print_storage none) w))

  -- For a user who answers no question with a yes, in whatever case of letters, terminate-cluster and
  -- delete-storage without --force do nothing but print, for both services and however printing ends.
  pub perform-unconfirmed :
      (fuel : ℕ) (polls : Polls)
      → ((question : String) → (lower (H.raw_input question) == "yes") ≡ false)
      → (service : ServiceClass) (w : World P)
      → (perform P H fuel polls service (Call.terminate_cluster false) w
          ≡ on P (P.print_status []) w)
        × (perform P H fuel polls service (Call.delete_storage false) w
            ≡ on P (P.print_storage none) w)
  unfolding perform perform_hadoop perform_zookeeper perform_any
  perform-unconfirmed fuel polls answers hadoop_service w =
      (kept_running answers w, kept_storage answers w)
  perform-unconfirmed fuel polls answers zookeeper_service w =
      (kept_running answers w, kept_storage answers w)
