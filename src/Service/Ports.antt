-- ===== src/Service/Ports.antt =====
-- The ports that a Hadoop cluster (hadoop/cloud/service.py) opens.
mod Tests
use ec2_wrappers.Prelude.{ℕ, true, String, ◌<>◌, Option, none, some, List, [], ◌∷◌, ok, raised}
use ec2_wrappers.Prelude.{
  ◌≡◌, refl, arith, All, contains, string_eq, ==_refl, Bool-cases, Result-cases, state_after,
  type_error, attribute_error, get_elem?, inl, inr,
}
use ec2_wrappers.Prelude.{lift, ◌>>◌}
use ec2_wrappers.Prelude.Dict.{Dict}
use ec2_wrappers.Prelude.Runs.{
  Runs, Holds, Anything, Holds-Anything, Runs-bind, Runs-lift, Runs-for_each,
}
use ec2_wrappers.Util.{Value}
use ec2_wrappers.Storage.{Instance}
use ec2_wrappers.Service.{Provider, Host, World, strings_of, on, first}
use ec2_wrappers.Service.Hadoop.{
  lacking, client_networks, authorize_client, authorize_client_ports, get_first, address_of,
}

-- The ports of the roles that the clients reach.
abbrev pub client_ports : List (String × ℕ)
client_ports = ("nn", 80) ∷ ("jt", 50030) ∷ ("nn", 50070) ∷ ("tt", 50060) ∷ ("dn", 50075) ∷ []

-- The ports by which namenode and jobtracker reach each other.
abbrev pub master_ports : List (String × ℕ)
master_ports = ("nn", 8020) ∷ ("jt", 8021) ∷ []

module _ (H : Host) (cidrs : Option Value) where
  -- The networks of the clients: those of the option, or the own address where there are none.
  pub data IsClient : String → Type 0 where
    given :
        (v : Value) (networks : List String) (network : String)
        → cidrs ≡ some v
        → strings_of v ≡ ok networks
        → contains networks network ≡ true
        → IsClient network
    own :
        (address : String)
        → lacking cidrs ≡ true
        → H.own_address ≡ ok address
        → IsClient (address <> "/32")

  -- A single address that the name of a host stands for.
  pub data IsHost : String → Type 0 where
    single : (name ip : String) → H.gethostbyname name ≡ ok ip → IsHost (ip <> "/32")

  -- A port of a role that is opened for a network.
  pub data IsOpened : String → ℕ → String → Type 0 where
    to_client :
        (n : ℕ) (role : String) (number : ℕ) (network : String)
        → get_elem? client_ports n ≡ some (role, number)
        → IsClient network
        → IsOpened role number network
    to_master :
        (n : ℕ) (role : String) (number : ℕ) (network : String)
        → get_elem? master_ports n ≡ some (role, number)
        → IsHost network
        → IsOpened role number network

All-self :
    (Q : String → Type 0) (xs : List String)
    → ((x : String) → contains xs x ≡ true → Q x)
    → All Q xs
All-self Q [] h = tt
All-self Q (x ∷ xs) h = (h x (rw (==_refl x) refl), All-self Q xs (λ y k. h y (ground (arith, k))))

module _ (P : Provider) (H : Host) (cidrs : Option Value) (I : P.World → Type 0)
    (files : Dict String String) (calls : List String)
    (asks : (role : String) (c : P.World) → I c → I (P.get_instances_in_role role c).1)
    (opens : (role : String) (number : ℕ) (network : String)
      → IsOpened H cidrs role number network
      → (c : P.World) → I c
      → I (P.authorize_role role number number network c).1) where
  abbrev Inv : World P → Type 0
  Inv w = I w.cluster × ((w.files ≡ files) × (w.calls ≡ calls))

  given-All : (v : Value) → cidrs ≡ some v → Holds (All (IsClient H cidrs)) (strings_of v)
  given-All v h = elim (Result-cases (strings_of v)) [
    | inr (e, k) ↦ rw k tt
    | inl (ns, k) ↦ rw k (All-self (IsClient H cidrs) ns (λ network j. given v ns network h k j))
  ]

  option-All :
      (o : Option Value)
      → cidrs ≡ o
      → Holds (All (IsClient H cidrs)) (elim o [ none ↦ raised type_error | some v ↦ strings_of v ])
  option-All none h = tt
  option-All (some v) h = given-All v h

  own-Holds : lacking cidrs ≡ true → Holds (λ address. H.own_address ≡ ok address) H.own_address
  own-Holds h = elim (Result-cases H.own_address) [
    | inr (e, k) ↦ rw k tt
    | inl (address, k) ↦ rw k refl
  ]

  client_networks-Runs : Runs Inv (client_networks P H cidrs) (All (IsClient H cidrs))
  unfolding client_networks
  client_networks-Runs = elim (Bool-cases (lacking cidrs)) [
    | inl b ↦
        rw (b, client_networks)
          (Runs-bind Inv (λ address. H.own_address ≡ ok address) _ (lift H.own_address) _
            (Runs-lift Inv _ H.own_address (own-Holds b))
            (λ address k. Runs-lift Inv _ (ok ((address <> "/32") ∷ [])) (own address b k, tt)))
    | inr b ↦ rw (b, client_networks) (Runs-lift Inv _ _ (option-All cidrs refl))
  ]

  asked : (role : String) → Runs Inv (on P (P.get_instances_in_role role)) Anything
  unfolding Runs
  asked role w (i, k) =
      ((asks role w.cluster i, k), Holds-Anything (P.get_instances_in_role role w.cluster).0)

  get_first-Runs : (role : String) → Runs Inv (get_first P H role) Anything
  unfolding get_first
  get_first-Runs role =
      Runs-bind Inv Anything Anything _ _ (asked role)
        (λ is _. Runs-lift Inv Anything (ok (first is)) tt)

  opened :
      (role : String) (number : ℕ) (network : String)
      → IsOpened H cidrs role number network
      → Runs Inv (on P (P.authorize_role role number number network)) Anything
  unfolding Runs
  opened role number network h w (i, k) = (
    (opens role number network h w.cluster i, k),
    Holds-Anything (P.authorize_role role number number network w.cluster).0,
  )

  address_of-Runs : (i : Option Instance) → Runs Inv (address_of P H i) Anything
  address_of-Runs none = Runs-lift Inv Anything (raised attribute_error) tt
  address_of-Runs (some i) = Runs-lift Inv Anything (ok i.public_ip) tt

  client :
      (n : ℕ) (role : String) (number : ℕ) (network : String)
      → get_elem? client_ports n ≡ some (role, number)
      → IsClient H cidrs network
      → Runs Inv (on P (P.authorize_role role number number network)) Anything
  client n role number network h c =
      opened role number network (to_client n role number network h c)

  authorize_client-Runs :
      (network : String)
      → IsClient H cidrs network
      → Runs Inv (authorize_client P H network) Anything
  unfolding authorize_client
  authorize_client-Runs network c =
      Runs-bind Inv Anything Anything _ _ (client 0 "nn" 80 network refl c) (λ _ _.
        Runs-bind Inv Anything Anything _ _ (client 1 "jt" 50030 network refl c) (λ _ _.
          Runs-bind Inv Anything Anything _ _ (client 2 "nn" 50070 network refl c) (λ _ _.
            Runs-bind Inv Anything Anything _ _ (client 3 "tt" 50060 network refl c)
              (λ _ _. client 4 "dn" 50075 network refl c))))

  address-Runs :
      (name : String) → Runs Inv (lift (H.gethostbyname name)) (λ ip. IsHost H cidrs (ip <> "/32"))
  address-Runs name = elim (Result-cases (H.gethostbyname name)) [
    | inl (ip, k) ↦ Runs-lift Inv _ (H.gethostbyname name) (rw k (single name ip k))
    | inr (e, k) ↦ Runs-lift Inv _ (H.gethostbyname name) (rw k tt)
  ]

  master :
      (n : ℕ) (role : String) (number : ℕ) (network : String)
      → get_elem? master_ports n ≡ some (role, number)
      → IsHost H cidrs network
      → Runs Inv (on P (P.authorize_role role number number network)) Anything
  master n role number network h c =
      opened role number network (to_master n role number network h c)

  masters-Runs :
      (nn_ip jt_ip : String)
      → IsHost H cidrs (nn_ip <> "/32")
      → IsHost H cidrs (jt_ip <> "/32")
      → Runs Inv
          (on P (P.authorize_role "nn" 8020 8020 (nn_ip <> "/32"))
            >> (on P (P.authorize_role "nn" 8020 8020 (jt_ip <> "/32"))
                >> (on P (P.authorize_role "jt" 8021 8021 (nn_ip <> "/32"))
                    >> on P (P.authorize_role "jt" 8021 8021 (jt_ip <> "/32")))))
          Anything
  masters-Runs nn_ip jt_ip n j =
      Runs-bind Inv Anything Anything _ _ (master 0 "nn" 8020 (nn_ip <> "/32") refl n) (λ _ _.
        Runs-bind Inv Anything Anything _ _ (master 0 "nn" 8020 (jt_ip <> "/32") refl j) (λ _ _.
          Runs-bind Inv Anything Anything _ _ (master 1 "jt" 8021 (nn_ip <> "/32") refl n)
            (λ _ _. master 1 "jt" 8021 (jt_ip <> "/32") refl j)))

  ports-Runs : Runs Inv (authorize_client_ports P H cidrs) Anything
  unfolding authorize_client_ports
  ports-Runs =
      Runs-bind Inv (All (IsClient H cidrs)) Anything _ _ client_networks-Runs (λ networks clients.
        Runs-bind Inv Anything Anything _ _ (get_first-Runs "nn") (λ nn _.
          Runs-bind Inv Anything Anything _ _ (get_first-Runs "jt") (λ jt _.
            Runs-bind Inv Anything Anything _ _
              (Runs-for_each Inv (IsClient H cidrs) networks (authorize_client P H) clients
                authorize_client-Runs)
              (λ _ _. Runs-bind Inv Anything Anything _ _ (address_of-Runs nn) (λ nn_host _.
                Runs-bind Inv (λ ip. IsHost H cidrs (ip <> "/32")) Anything _ _
                  (address-Runs nn_host)
                  (λ nn_ip n. Runs-bind Inv Anything Anything _ _ (address_of-Runs jt) (λ jt_host _.
                    Runs-bind Inv (λ ip. IsHost H cidrs (ip <> "/32")) Anything _ _
                      (address-Runs jt_host) (λ jt_ip j. masters-Runs nn_ip jt_ip n j))))))))

-- Opening the ports of a Hadoop cluster asks for nothing but the ports of the two tables: those of the
-- clients for the networks of the option (for the own address where there are none), and 8020 and 8021
-- for single addresses that name a host. Whatever these requests and the questions for instances keep
-- true of the cluster is true afterwards, however the call ends, and files and commands are as before.
pub authorize_client_ports-IsOpened :
    (P : Provider) (H : Host) (cidrs : Option Value) (I : P.World → Type 0) (w : World P)
    → ((role : String) (c : P.World) → I c → I (P.get_instances_in_role role c).1)
    → ((role : String) (number : ℕ) (network : String)
        → IsOpened H cidrs role number network
        → (c : P.World) → I c
        → I (P.authorize_role role number number network c).1)
    → I w.cluster
    → let w' = state_after (authorize_client_ports P H cidrs) w in
      I w'.cluster × ((w'.files ≡ w.files) × (w'.calls ≡ w.calls))
unfolding Runs
authorize_client_ports-IsOpened P H cidrs I w asks opens i =
    (ports-Runs P H cidrs I w.files w.calls asks opens w (i, (refl, refl))).0
