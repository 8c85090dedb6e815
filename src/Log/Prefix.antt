-- ===== src/Log/Prefix.antt =====
-- log/log.go: formatPrefix of a date and a line number that fit in 20 digits does not panic.
use wqs.Common.{
  codes, ◌≡◌, refl, ℕ, ◌^◌, ◌<◌, ◌≤◌, Bool, true, false, Option, none, some, [], ◌++◌, Bytes, arith,
  if◌then◌else◌,
}
use wqs.Common.Int.{ℤ}
use wqs.Log.{
  TimeOps, DateTime, itoa, format_prefix, has_flag, l_utc, ◌>>=◌, has_file, join_numbers,
  date_prefix, time_prefix, level_prefix, file_prefix,
}
use wqs.Log.Numbers.{Written, itoa-Written}

abbrev pub Small : ℕ → Type 0
Small n = n < 10 ^ 20

pub record IsSmall (t : DateTime) : Type 0 where
  pub year : Small t.year
  pub month : Small t.month
  pub day : Small t.day
  pub hour : Small t.hour
  pub minute : Small t.minute
  pub second : Small t.second

abbrev pub IsSome : {A : Type 0} → Option A → Type 0
IsSome {A} o = (a : A) × (o ≡ some a)

itoa-IsSome : (i wid : ℕ) → Small i → wid ≤ 20 → IsSome (itoa i wid)
itoa-IsSome i wid h w = go (itoa i wid) (itoa-Written i wid h w)
  where
    go : (o : Option Bytes) → Written i wid 20 [] o → IsSome o
    go none w = absurd w
    go (some out) w = (out, refl)

bind-IsSome :
    {A B : Type 0} (o : Option A) (f : A → Option B)
    → IsSome o
    → ((a : A) → IsSome (f a))
    → IsSome (o >>= f)
bind-IsSome o f (a, e) h = rw e (h a)

some-IsSome : {A : Type 0} (a : A) → IsSome (some a)
some-IsSome a = (a, refl)

if-IsSome :
    {A : Type 0} (b : Bool) (x y : Option A) → IsSome x → IsSome y → IsSome (if b then x else y)
if-IsSome true x y h k = h
if-IsSome false x y h k = k

join_numbers-IsSome :
    (sep : Bytes) (width a b c : ℕ)
    → width ≤ 20
    → Small a
    → Small b
    → Small c
    → IsSome (join_numbers sep width a b c)
join_numbers-IsSome sep width a b c w x y z =
    bind-IsSome (itoa a width) _ (itoa-IsSome a width x w) λ p.
      bind-IsSome (itoa b 2) _ (itoa-IsSome b 2 y (omega arith))
        λ q. bind-IsSome (itoa c 2) _ (itoa-IsSome c 2 z (omega arith)) λ r. some-IsSome _

file_prefix-IsSome :
    (flags : ℕ) (file : Bytes) (line : ℕ) → Small line → IsSome (file_prefix flags file line)
file_prefix-IsSome flags file line h =
    if-IsSome (has_file flags) _ _
      (bind-IsSome (itoa line 0) _ (itoa-IsSome line 0 h (omega arith)) λ n. some-IsSome _)
      (some-IsSome [])

if-IsSmall : (b : Bool) (t u : DateTime) → IsSmall t → IsSmall u → IsSmall (if b then t else u)
if-IsSmall true t u h k = h
if-IsSmall false t u h k = k

pub format_prefix-IsSome :
    (time : TimeOps) (flags : ℕ) (now : ℤ) (file : Bytes) (line level : ℕ)
    → IsSmall (time.local now)
    → IsSmall (time.utc now)
    → Small line
    → IsSome (format_prefix time flags now file line level)
unfolding format_prefix
format_prefix-IsSome time flags now file line level l u h =
    prefixed (if has_flag flags l_utc then time.utc now else time.local now) (if-IsSmall _ _ _ u l)
  where
    prefixed :
        (t : DateTime)
        → IsSmall t
        → IsSome (
            date_prefix flags t >>= λ d. time_prefix flags t >>= λ c.
            file_prefix flags file line >>= λ f. some (d ++ (c ++ (level_prefix flags level ++ f))))
    prefixed t v =
        bind-IsSome (date_prefix flags t) _
          (if-IsSome _ _ _
            (join_numbers-IsSome (codes "-") 4 _ _ _ (omega arith) v.year v.month v.day)
            (some-IsSome []))
          λ d.
            bind-IsSome (time_prefix flags t) _
              (if-IsSome _ _ _
                (join_numbers-IsSome (codes ":") 2 _ _ _ (omega arith) v.hour v.minute v.second)
                (some-IsSome []))
              λ c.
                bind-IsSome (file_prefix flags file line) _ (file_prefix-IsSome flags file line h)
                  λ f. some-IsSome _
