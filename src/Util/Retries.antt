-- ===== src/Util/Retries.antt =====
-- What the retry loop of `url_get` (hadoop/cloud/util.py) returns, and after how many attempts.
use ec2_wrappers.Prelude.{ℕ, zero, suc, ◌+◌, ◌<◌, ◌≡◌, String, some}
use ec2_wrappers.Prelude.{
  Result, ok, raised, arith, Result-cases, Bool-cases, inl, inr, if◌then◌else◌,
}
use ec2_wrappers.Util.{Fetch, is_url_error, url_get_loop, url_get}

-- The answer of the first attempt that does not end in URLError, from the attempt `from` on; after `n`
-- of those the answer of the next one, whatever it is.
unfoldable pub first_page : ℕ → (ℕ → Result String) → ℕ → Result String
first_page zero fetch from = fetch from
first_page (suc n) fetch from = elim (fetch from) [
  | ok page ↦ ok page
  | raised e ↦ if is_url_error e then first_page n fetch (from + 1) else raised e
]

url_get_loop-first_page :
    (fuel : ℕ) (fetch : ℕ → Result String) (attempts left retries : ℕ)
    → attempts + left ≡ retries
    → left < fuel
    → url_get_loop fuel fetch attempts retries ≡ some (first_page left fetch attempts)
unfolding url_get_loop first_page
url_get_loop-first_page zero fetch attempts left retries e h = absurd (omega arith)
url_get_loop-first_page (suc fuel) fetch attempts zero retries e h =
    elim (Result-cases (fetch attempts)) [
      | inl (page, k) ↦ ground arith
      | inr (x, k) ↦ elim (Bool-cases (is_url_error x)) [
        | inl b ↦ ground arith
        | inr b ↦ ground arith
      ]
    ]
url_get_loop-first_page (suc fuel) fetch attempts (suc left) retries e h = ground (
  arith,
  url_get_loop-first_page fuel fetch (attempts + 1) left retries (omega arith) (omega arith),
)

-- With fuel for `retries + 1` rounds the loop ends. It gives what the first of the `retries + 1`
-- attempts gives that does not end in URLError, be it a page or another exception, and the URLError
-- of the last one when all end in it.
pub url_get-first_page :
    (fuel : ℕ) (fetch : Fetch) (timeout retries : ℕ)
    → retries < fuel
    → url_get fuel fetch timeout retries ≡ some (first_page retries (fetch timeout) 0)
unfolding url_get
url_get-first_page fuel fetch timeout retries h =
    url_get_loop-first_page fuel (fetch timeout) 0 retries retries (omega arith) h
