-- ===== src/Service/Ec2/Snapshot.antt =====
-- What `create_formatted_snapshot` (hadoop/cloud/providers/ec2.py) leaves behind.
use ec2_wrappers.Prelude.{ℕ, String, Option, some, [], ◌∷◌, Result, ok, raised, timeout}
use ec2_wrappers.Prelude.{◌≡◌, refl, inl, inr, ◌⊎◌, ap, ◌>>◌, ◌>>=◌}
use ec2_wrappers.Prelude.Reaches.{After, After-step, Reaches, Reaches-after}
use ec2_wrappers.Util.{Value}
use ec2_wrappers.Ec2
use ec2_wrappers.Ec2.{Reservation}
use ec2_wrappers.Service.{first, unless_timeout}
use ec2_wrappers.Prelude.{none, return, bind_ok, ◌∙◌, sym, lift}
use mathlib.Core.Path.{subst}
use ec2_wrappers.Service.Ec2.{
  Account, Site, text_of, in_cloud, wait_for_volume, in_time, wait_for_instances,
  run_command_on_instance, format_volume, await_instance, create_formatted_snapshot, format_command,
  awaiting, only_instance,
}

module _ (E : Account) where
  -- A site with another state of EC2.
  abbrev pub with_cloud : Site E → E.compute.Cloud → Site E
  with_cloud s c = record s { storage = record s.storage { cloud = c } }

  -- EC2 has made a volume of the size in the state `c`, deleted that volume in the end, and then
  -- terminated the instance, and nothing else since.
  pub record IsCleared (id : String) (size : ℕ) (zone : Option String) (c : E.compute.Cloud)
      (s : Site E) : Type 0 where
    pub volume : String
    pub made : E.compute.Cloud
    pub before : E.compute.Cloud
    pub between : E.compute.Cloud
    pub created : E.create_blank_volume size zone c ≡ (ok volume, made)
    pub deleted : E.delete_volume volume before ≡ (ok tt, between)
    pub terminated : E.compute.terminate_instances (id ∷ []) between ≡ (ok tt, s.storage.cloud)

  module _ (id : String) (size : ℕ) (zone : Option String) (c : E.compute.Cloud) where
    cleared :
        (volume : String) (made : E.compute.Cloud)
        → E.create_blank_volume size zone c ≡ (ok volume, made)
        → (s t : Site E) → in_cloud E (E.delete_volume volume) s ≡ (ok tt, t)
        → (q : Result (Unit {0}) × Site E)
        → in_cloud E (E.compute.terminate_instances (id ∷ [])) t ≡ q
        → After (IsCleared id size zone c) q
    cleared volume made e s t d (ok a, u) h = record {
      volume = volume;
      made = made;
      before = s.storage.cloud;
      between = t.storage.cloud;
      created = e;
      deleted = ap (λ q. (q.0, q.1.storage.cloud)) d;
      terminated = ap (λ q. (q.0, q.1.storage.cloud)) h;
    }
    cleared volume made e s t d (raised x, u) h = tt

    clears_last :
        (volume : String) (made : E.compute.Cloud)
        → E.create_blank_volume size zone c ≡ (ok volume, made)
        → Reaches (IsCleared id size zone c) (
            in_cloud E (E.delete_volume volume)
            >> in_cloud E (E.compute.terminate_instances (id ∷ [])))
    unfolding Reaches
    clears_last volume made e s =
        After-step (IsCleared id size zone c) (in_cloud E (E.delete_volume volume) s)
          (λ _. in_cloud E (E.compute.terminate_instances (id ∷ [])))
          (λ _ t d.
            cleared volume made e s t d (in_cloud E (E.compute.terminate_instances (id ∷ [])) t)
              refl)

    attached-IsCleared :
        (patience : ℕ) (ssh_options host volume : String) (made : E.compute.Cloud)
        → E.create_blank_volume size zone c ≡ (ok volume, made)
        → Reaches (IsCleared id size zone c) (do
          in_cloud E (E.attach_volume volume id "/dev/sdj")
          run_command_on_instance E ssh_options host format_command
          in_cloud E (E.detach_volume volume id)
          in_cloud E (E.create_snapshot volume)
          awaiting E (λ d. in_time (wait_for_volume patience (λ n. E.volumes_at volume n d) 1))
          in_cloud E (E.delete_volume volume)
          in_cloud E (E.compute.terminate_instances (id ∷ [])))
    attached-IsCleared patience ssh_options host volume made e =
        let P = IsCleared id size zone c in
        Reaches-after P (in_cloud E (E.attach_volume volume id "/dev/sdj")) _ (λ _.
          Reaches-after P (run_command_on_instance E ssh_options host format_command) _ (λ _.
            Reaches-after P (in_cloud E (E.detach_volume volume id)) _ (λ _.
              Reaches-after P (in_cloud E (E.create_snapshot volume)) _ (λ _.
                Reaches-after P
                  (awaiting E
                    (λ d. in_time (wait_for_volume patience (λ n. E.volumes_at volume n d) 1)))
                  _ (λ _. clears_last volume made e)))))

  format_volume-IsCleared :
      (patience : ℕ) (id : String) (size : ℕ) (zone : Option String) (ssh_options : String)
      (s : Site E)
      → After
          (IsCleared id size zone s.storage.cloud)
          (format_volume E patience id size zone ssh_options s)
  unfolding format_volume Reaches
  format_volume-IsCleared patience id size zone ssh_options s =
      let P = IsCleared id size zone s.storage.cloud in
      After-step P (in_cloud E (λ c. (E.update id c, c)) s) _ (λ host t h.
        After-step P (in_cloud E (E.create_blank_volume size zone) t) _ (λ volume u k.
          let same : (t.storage.cloud ≡ s.storage.cloud) = sym (ap (λ q. q.1.storage.cloud) h) in
          let made : (E.create_blank_volume size zone t.storage.cloud
              ≡ (ok volume, u.storage.cloud)) =
            ap (λ q. (q.0, q.1.storage.cloud)) k in
          attached-IsCleared id size zone s.storage.cloud patience ssh_options host volume
            u.storage.cloud
            (subst (λ c. E.create_blank_volume size zone c ≡ (ok volume, u.storage.cloud)) same
              made)
            u))

  -- What follows the wait, by the result of the wait and the state after it.
  waited-Outcome :
      (patience : ℕ) (id : String) (size : ℕ) (zone : Option String) (ssh_options : String)
      (s : Site E) (q : Result (Unit {0}) × Site E)
      → let r =
          (unless_timeout (λ _. q) >>= (λ started. elim started [
            | none ↦ return tt
            | some _ ↦ format_volume E patience id size zone ssh_options
          ]))
            s in
        ((q.0 ≡ raised timeout) × (r ≡ (ok tt, q.1)))
        ⊎ After (IsCleared id size zone q.1.storage.cloud) r
  unfolding unless_timeout Reaches
  waited-Outcome patience id size place ssh_options s (ok a, t) =
      inr (format_volume-IsCleared patience id size place ssh_options t)
  waited-Outcome patience id size place ssh_options s (raised timeout, t) = inl (refl, refl)
  waited-Outcome patience id size place ssh_options s (raised other, t) = inr tt

  module _ (patience size : ℕ) (zone : Option Value) (image_id : String) (key_name : Option Value)
      (ssh_options : String) (s : Site E) (res : Reservation) (i : Ec2.Instance)
      (c1 : E.compute.Cloud)
      (launched : E.run_instance image_id (text_of key_name) (text_of zone) s.storage.cloud
        ≡ (ok res, c1))
      (one : first res.instances ≡ some i) where
    abbrev snapshot : Result (Unit {0}) × Site E
    snapshot = create_formatted_snapshot E patience size zone image_id key_name ssh_options s

    abbrev waited : Result (Unit {0})
    waited = (wait_for_instances E patience (i.id ∷ []) (with_cloud s c1)).0

    awaited : Result (Unit {0}) × Site E
    awaited = await_instance E patience size (text_of zone) ssh_options i (with_cloud s c1)

    snapshot-awaited : snapshot ≡ awaited
    unfolding create_formatted_snapshot awaited
    snapshot-awaited =
        bind_ok (in_cloud E (E.run_instance image_id (text_of key_name) (text_of zone)))
          (λ (r : Reservation). lift (only_instance E r) >>= λ x.
            await_instance E patience size (text_of zone) ssh_options x)
          s (with_cloud s c1) res (ap (λ q. (q.0, with_cloud s q.1)) launched)
        ∙ rw (one, ◌>>=◌) refl

    -- The outcomes of the wait and of what follows it.
    abbrev Outcome : Result (Unit {0}) × Site E → Type 0
    Outcome r =
        ((waited ≡ raised timeout) × (r ≡ (ok tt, with_cloud s (E.later c1))))
        ⊎ After (IsCleared i.id size (text_of zone) (E.later c1)) r

    awaited-Outcome : Outcome awaited
    unfolding awaited await_instance wait_for_instances unless_timeout
    awaited-Outcome =
        waited-Outcome patience i.id size (text_of zone) ssh_options (with_cloud s c1)
          (wait_for_instances E patience (i.id ∷ []) (with_cloud s c1))

    -- Once its instance is launched, `create_formatted_snapshot` ends in one of two ways without an
    -- exception. Where the wait for the instance times out it returns as if all were well, and EC2 is as
    -- the launch and the wait left it, with the instance. Otherwise the volume that EC2 made for it
    -- after the wait is deleted and then the instance terminated, by calls that EC2 accepts.
    pub create_formatted_snapshot-Outcome : Outcome snapshot
    create_formatted_snapshot-Outcome = subst Outcome (sym snapshot-awaited) awaited-Outcome
