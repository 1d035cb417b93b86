-- ===== src/Accounts/Names.antt =====
-- The names of key pairs, the accounts that they are billed to, and the ports of proxies.
use ec2_wrappers.Prelude.{ℕ, ◌+◌, ◌*◌, ◌≤◌, ◌<◌, ◌≡◌, refl, sym, ap, ◌∙◌, true, false, String, ◌<>◌}
use ec2_wrappers.Prelude.{Char, char_eq, code, ok, arith, [], ◌∷◌, Bool-cases, inl, inr}
use ec2_wrappers.Prelude.Text.{
  all_chars, char, has_char, starts_with, starts_with_self, starts_with_rest, <>_assoc,
}
use ec2_wrappers.Usage.{user_from_key}
use ec2_wrappers.Usage.Keys.{user_from_key_class}
use ec2_wrappers.Accounts.{is_key_char, clean, full_key_name, proxy_port_base, last_two, port_of}

-- A key pair is always named `<user>-…`.
full_key_name-eq :
    (user key : String) → (rest : String) × (full_key_name user key ≡ user <> ("-" <> rest))
unfolding full_key_name
full_key_name-eq user key = elim (Bool-cases (starts_with (clean key) (user <> "-"))) [
  | inl h ↦
      let (rest, e) = starts_with_rest (clean key) (user <> "-") h in
      (rest, rw (h, full_key_name) (e ∙ <>_assoc user "-" rest))
  | inr h ↦ (clean key, rw (h, full_key_name))
]

clean-append : (s t : String) → clean (s <> t) ≡ clean s <> clean t
unfolding clean
clean-append String.[] t = refl
clean-append (String.◌∷◌ c s) t = elim (Bool-cases (is_key_char c)) [
  | inl h ↦ rw (h, clean-append s t)
  | inr h ↦ rw (h, clean-append s t)
]

clean_eq : (s : String) → all_chars is_key_char s ≡ true → clean s ≡ s
unfolding clean all_chars
clean_eq String.[] h = refl
clean_eq (String.◌∷◌ c s) h = ground (arith, clean_eq s)

all_chars-clean : (s : String) → all_chars is_key_char (clean s) ≡ true
unfolding clean all_chars
all_chars-clean String.[] = refl
all_chars-clean (String.◌∷◌ c s) = elim (Bool-cases (is_key_char c)) [
  | inl h ↦ rw (h, h, all_chars-clean s)
  | inr h ↦ rw (h, all_chars-clean s)
]

-- The key pair that `create_ssh_key` makes for a class account `<course>-<login>` is billed to that
-- account, and counts against its spending limit, whatever name was asked for.
pub user_from_key-full_key_name :
    (course login key : String)
    → starts_with course "cs" ≡ true
    → has_char "-" course ≡ false
    → has_char "-" login ≡ false
    → let user = course <> ("-" <> login) in
      (user_from_key (full_key_name user key) ≡ user)
      × (starts_with (full_key_name user key) (user <> "-") ≡ true)
user_from_key-full_key_name course login key h hc hl =
    let user = course <> ("-" <> login) in
    let (rest, e) = full_key_name-eq user key in
    (
      ap user_from_key e ∙ user_from_key_class course login rest h hc hl,
      ap (λ k. starts_with k (user <> "-")) (e ∙ sym (<>_assoc user "-" rest))
          ∙ starts_with_self (user <> "-") rest,
    )

-- What `create_ssh_key` keeps of a text, it keeps again.
clean-clean : (s : String) → clean (clean s) ≡ clean s
clean-clean s = clean_eq (clean s) (all_chars-clean s)

clean-dash : clean "-" ≡ "-"
unfolding clean is_key_char char_eq
clean-dash = refl

-- For a user of key characters, `create_ssh_key` given a name that it has made itself asks for the
-- same key pair.
pub full_key_name-full_key_name :
    (user key : String)
    → all_chars is_key_char user ≡ true
    → full_key_name user (full_key_name user key) ≡ full_key_name user key
unfolding full_key_name
full_key_name-full_key_name user key h = elim (Bool-cases (starts_with (clean key) (user <> "-"))) [
  | inl b ↦ rw (b, clean-clean key, b)
  | inr b ↦
      let keeps : clean (user <> ("-" <> clean key)) ≡ user <> ("-" <> clean key) =
        clean-append user ("-" <> clean key)
        ∙ ap (λ u. u <> clean ("-" <> clean key)) (clean_eq user h)
        ∙ ap (λ k. user <> k)
            (clean-append "-" (clean key)
              ∙ ap (λ d. d <> clean (clean key)) clean-dash
              ∙ ap (λ k. "-" <> k) (clean-clean key)) in
      let starts : starts_with (user <> ("-" <> clean key)) (user <> "-") ≡ true =
        ap (λ k. starts_with k (user <> "-")) (sym (<>_assoc user "-" (clean key)))
        ∙ starts_with_self (user <> "-") (clean key) in
      rw (b, keeps, starts)
]

last_two-append : (s : String) (a b : Char) → last_two (s <> (char a <> char b)) ≡ a ∷ b ∷ []
unfolding last_two
last_two-append String.[] a b = refl
last_two-append (String.◌∷◌ c String.[]) a b = refl
last_two-append (String.◌∷◌ c (String.◌∷◌ d String.[])) a b = refl
last_two-append (String.◌∷◌ c (String.◌∷◌ d (String.◌∷◌ e s))) a b =
    last_two-append (String.◌∷◌ d (String.◌∷◌ e s)) a b

-- A letter of `a` to `z`.
pub record IsLower (c : Char) : Type 0 where
  pub low : b'a' ≤ code c
  pub high : code c ≤ b'z'

port_eq :
    (a b : Char) (s : String) (p : ℕ)
    → IsLower a
    → IsLower b
    → proxy_port_base (s <> (char a <> char b)) ≡ ok p
    → p + 7857 ≡ (code a * 26 + code b) * 3 + 40000
unfolding proxy_port_base port_of
port_eq a b s p la lb h =
    let k = sym (ap port_of (last_two-append s a b)) ∙ h in ground (arith, la.low, lb.low)

ports_apart :
    (a b c d p q i j : ℕ)
    → 97 ≤ a
    → a ≤ 122
    → 97 ≤ b
    → b ≤ 122
    → 97 ≤ c
    → c ≤ 122
    → 97 ≤ d
    → d ≤ 122
    → p + 7857 ≡ (a * 26 + b) * 3 + 40000
    → q + 7857 ≡ (c * 26 + d) * 3 + 40000
    → i < 3
    → j < 3
    → p + i ≡ q + j
    → (a ≡ c) × (b ≡ d)
ports_apart a b c d p q i j a1 a2 b1 b2 c1 c2 d1 d2 hp hq hi hj h = (omega arith, omega arith)

-- The three ports of the proxies of a user whose name ends in two letters of `a` to `z` lie between
-- 40000 and 42027.
pub proxy_port_base_lem :
    (s : String) (a b : Char) (p i : ℕ)
    → IsLower a
    → IsLower b
    → proxy_port_base (s <> (char a <> char b)) ≡ ok p
    → i < 3
    → (40000 ≤ p + i) × (p + i ≤ 42027)
proxy_port_base_lem s a b p i la lb h hi =
    ground (arith, port_eq a b s p la lb h, la.low, lb.low, la.high, lb.high)

-- The proxies of two users whose names end in two letters of `a` to `z` share a port only if those
-- letters are the same.
pub proxy_port_base-apart :
    (s t : String) (a b c d : Char) (p q i j : ℕ)
    → IsLower a
    → IsLower b
    → IsLower c
    → IsLower d
    → proxy_port_base (s <> (char a <> char b)) ≡ ok p
    → proxy_port_base (t <> (char c <> char d)) ≡ ok q
    → i < 3
    → j < 3
    → p + i ≡ q + j
    → (code a ≡ code c) × (code b ≡ code d)
proxy_port_base-apart s t a b c d p q i j la lb lc ld hp hq hi hj e =
    ports_apart (code a) (code b) (code c) (code d) p q i j la.low la.high lb.low lb.high lc.low
      lc.high ld.low ld.high (port_eq a b s p la lb hp) (port_eq c d t q lc ld hq) hi hj e
