-- ===== src/StringEngine/Time.antt =====
-- The namespace TimeUtils of engine/utils/utils.hpp: times to live and expire times, int64_t.
use kvdk.Prelude.{
  ℤ, pos, negsuc, inr, inl, Bool-cases, ◌+◌, ◌-◌, ◌^◌, ◌≤◌, ◌≡◌, refl, Bool-cases, ℕ, suc, Bool,
  true, false, ◌&&◌, ◌==◌, leb, ltb, if◌then◌else◌, arith,
}

abbrev pub int64_max : ℕ
int64_max = 2 ^ 63 - 1

-- kPersistTime
abbrev pub persistent : ℤ
persistent = pos int64_max

unfoldable pub check_is_expired : ℤ → (now : ℕ) → Bool
check_is_expired (pos t) now = leb t now
check_is_expired (negsuc t) now = false

unfoldable pub check_ttl : ℤ → (base_time : ℕ) → Bool
check_ttl (pos t) base = if t == int64_max then true else leb t (int64_max - base)
check_ttl (negsuc t) base = true

unfoldable pub ttl_to_expire_time : ℤ → (base_time : ℕ) → ℤ
ttl_to_expire_time (pos t) base = if t == int64_max then persistent else pos (t + base)
ttl_to_expire_time (negsuc t) base = if ltb t base then pos (base - suc t) else negsuc (t - base)

-- The numbers of int64_t.
abbrev pub IsInt64 : ℤ → Type 0
IsInt64 (pos n) = n ≤ int64_max
IsInt64 (negsuc n) = n ≤ int64_max

-- Whether a key with a time to live has expired: one that is not persistent from the time that is so
-- long after its base time, if that is not in front of the time 0. A key whose time would be in front
-- of it never expires.
abbrev pub is_due : ℤ → (base now : ℕ) → Bool
is_due (pos t) base now = leb (if t == int64_max then int64_max else t + base) now
is_due (negsuc t) base now = leb (suc t) base && leb base (now + suc t)

-- A time to live of int64_t that passes CheckTTL, from a time of the clock that int64_t holds, gives an
-- expire time that int64_t holds. The key expires just that long after its base time; with no time to
-- live, at the last time that int64_t holds; and never, if its negative time to live leads to a time
-- in front of 0.
pub check_ttl-fits :
    (ttl : ℤ) (base now : ℕ)
    → base ≤ int64_max
    → IsInt64 ttl
    → check_ttl ttl base ≡ true
    → IsInt64 (ttl_to_expire_time ttl base)
      × (check_is_expired (ttl_to_expire_time ttl base) now ≡ is_due ttl base now)
unfolding check_ttl ttl_to_expire_time check_is_expired
check_ttl-fits (pos t) base now in_range held ok = elim (Bool-cases (t == int64_max)) [
  | inl e ↦ rw e (omega arith, refl)
  | inr e ↦ let le : t ≤ int64_max - base = ground arith in rw e (omega arith, refl)
]
check_ttl-fits (negsuc t) base now in_range held ok = elim (Bool-cases (ltb t base)) [
  | inl e ↦ rw e (ground arith, ground arith)
  | inr e ↦ rw e (ground arith, ground arith)
]
