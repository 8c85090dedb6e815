-- ===== src/Utils/Listener.antt =====
-- utils/listener.go: the connections of a Listener. A connection is its place in the order of
-- arrival; the state of the wrapped ones, the count, and the sum of the events on the counter
-- ReConn. What the wrapped connection's Close returns is left out.
use wqs.Common.{
  ◌≡◌, refl, ap, ◌∙◌, ℕ, zero, suc, ◌+◌, ◌^◌, ◌<◌, Bool, true, false, Option, none, some, List, [],
  ◌∷◌, ◌++◌, arith, length, get_elem?, length-append,
}
use wqs.Common.Int.{ℤ, pos, negsuc, int64, ◌+ℤ◌, int64-add, int64_of_range}

-- The flag `closing` of each connection.
pub record Listener : Type 0 where
  pub count : ℤ
  pub closing : List Bool
  pub re_conn : ℤ
  -- the calls of Close on the wrapped connections
  pub closed : ℕ

abbrev pub listen : Listener
listen = record { count = pos 0; closing = []; re_conn = pos 0; closed = 0 }

-- `Accept`, of a connection that has come.
unfoldable pub accept : Listener → Listener
accept l = record l {
  count = int64 (l.count +ℤ pos 1);
  closing = l.closing ++ false ∷ [];
  re_conn = l.re_conn +ℤ pos 1;
}

abbrev pub set_closing : List Bool → ℕ → List Bool
set_closing [] i = []
set_closing (b ∷ bs) zero = true ∷ bs
set_closing (b ∷ bs) (suc i) = b ∷ set_closing bs i

-- `Close` of a connection: the second one does nothing.
abbrev close_flagged : Option Bool → ℕ → Listener → Listener
close_flagged (some false) i l = record l {
  count = int64 (l.count +ℤ negsuc 0);
  closing = set_closing l.closing i;
  re_conn = l.re_conn +ℤ negsuc 0;
  closed = l.closed + 1;
}
close_flagged o i l = l

unfoldable pub close : ℕ → Listener → Listener
close i l = close_flagged (get_elem? l.closing i) i l

unfoldable pub get_remain : Listener → ℤ
get_remain l = l.count

-- What happens: a connection comes, or one is closed.
pub data Step : Type 0 where
  accepts : Step
  closes : ℕ → Step

unfoldable pub run : List Step → Listener → Listener
unfolding accept close
run [] l = l
run (accepts ∷ steps) l = run steps (accept l)
run (closes i ∷ steps) l = run steps (close i l)

-- The connections that are open.
abbrev pub open_ones : List Bool → ℕ
open_ones [] = 0
open_ones (true ∷ bs) = open_ones bs
open_ones (false ∷ bs) = suc (open_ones bs)

pub record IsCounted (l : Listener) : Type 0 where
  pub remaining : l.count ≡ pos (open_ones l.closing)
  pub reported : l.re_conn ≡ pos (open_ones l.closing)
  pub every : l.closed + open_ones l.closing ≡ length l.closing

open_ones-append : (bs cs : List Bool) → open_ones (bs ++ cs) ≡ open_ones bs + open_ones cs
open_ones-append [] cs = omega arith
open_ones-append (true ∷ bs) cs = open_ones-append bs cs
open_ones-append (false ∷ bs) cs = omega (arith, open_ones-append bs cs)

open_ones-set_closing :
    (bs : List Bool) (i : ℕ)
    → get_elem? bs i ≡ some false
    → open_ones bs ≡ suc (open_ones (set_closing bs i))
open_ones-set_closing [] i h = absurd (cc)
open_ones-set_closing (true ∷ bs) zero h = absurd (cc)
open_ones-set_closing (false ∷ bs) zero h = refl
open_ones-set_closing (true ∷ bs) (suc i) h = open_ones-set_closing bs i h
open_ones-set_closing (false ∷ bs) (suc i) h = ap suc (open_ones-set_closing bs i h)

length-set_closing : (bs : List Bool) (i : ℕ) → length (set_closing bs i) ≡ length bs
length-set_closing [] i = refl
length-set_closing (b ∷ bs) zero = refl
length-set_closing (b ∷ bs) (suc i) = ap suc (length-set_closing bs i)

add_one : (n : ℕ) → pos n +ℤ pos 1 ≡ pos (n + 1)
add_one n = ground arith

take_one : (n : ℕ) → pos (suc n) +ℤ negsuc 0 ≡ pos n
take_one n = ground arith

accept-IsCounted :
    (l : Listener) → suc (length l.closing) < 2 ^ 63 → IsCounted l → IsCounted (accept l)
unfolding accept
accept-IsCounted l room v =
    let n = open_ones l.closing in
    let one_more : pos (n + 1) ≡ pos (open_ones (l.closing ++ false ∷ [])) =
      ap pos (omega (arith, open_ones-append l.closing (false ∷ []))) in
    record {
      remaining =
          ap (λ c. int64 (c +ℤ pos 1)) v.remaining
          ∙ int64-add n 1 (omega (arith, v.every))
          ∙ one_more;
      reported = ap (λ c. c +ℤ pos 1) v.reported ∙ add_one n ∙ one_more;
      every = omega (
        arith,
        v.every,
        open_ones-append l.closing (false ∷ []),
        length-append l.closing (false ∷ []),
      );
    }

close_flagged-IsCounted :
    (o : Option Bool) (i : ℕ) (l : Listener)
    → get_elem? l.closing i ≡ o
    → length l.closing < 2 ^ 63
    → IsCounted l
    → IsCounted (close_flagged o i l)
close_flagged-IsCounted none i l e room v = v
close_flagged-IsCounted (some true) i l e room v = v
close_flagged-IsCounted (some false) i l e room v =
    let m = open_ones (set_closing l.closing i) in
    let fewer : open_ones l.closing ≡ suc m = open_ones-set_closing l.closing i e in
    record {
      remaining =
          ap (λ c. int64 (c +ℤ negsuc 0)) (v.remaining ∙ ap pos fewer)
          ∙ ap int64 (take_one m)
          ∙ int64_of_range (pos m) (omega (arith, v.every, fewer));
      reported = ap (λ c. c +ℤ negsuc 0) (v.reported ∙ ap pos fewer) ∙ take_one m;
      every = omega (arith, v.every, fewer, length-set_closing l.closing i);
    }

close-IsCounted :
    (i : ℕ) (l : Listener) → length l.closing < 2 ^ 63 → IsCounted l → IsCounted (close i l)
unfolding close
close-IsCounted i l room v = close_flagged-IsCounted (get_elem? l.closing i) i l refl room v

length-close : (i : ℕ) (l : Listener) → length (close i l).closing ≡ length l.closing
unfolding close
length-close i l = go (get_elem? l.closing i)
  where
    go : (o : Option Bool) → length (close_flagged o i l).closing ≡ length l.closing
    go none = refl
    go (some true) = refl
    go (some false) = length-set_closing l.closing i

length-accept : (l : Listener) → length (accept l).closing ≡ suc (length l.closing)
unfolding accept
length-accept l = omega (arith, length-append l.closing (false ∷ []))

run-IsCounted_from :
    (steps : List Step) (l : Listener)
    → length l.closing + length steps < 2 ^ 63
    → IsCounted l
    → IsCounted (run steps l)
unfolding run
run-IsCounted_from [] l room v = v
run-IsCounted_from (accepts ∷ steps) l room v =
    run-IsCounted_from steps (accept l) (omega (arith, length-accept l))
      (accept-IsCounted l (omega arith) v)
run-IsCounted_from (closes i ∷ steps) l room v =
    run-IsCounted_from steps (close i l) (omega (arith, length-close i l))
      (close-IsCounted i l (omega arith) v)

-- Whatever connections come and are closed, in whatever order and some twice, the count of a
-- Listener and the sum of its events are the number of the connections that are open, and the
-- wrapped connections are closed once each, as long as fewer than 2^63 things happen.
pub run-IsCounted : (steps : List Step) → length steps < 2 ^ 63 → IsCounted (run steps listen)
run-IsCounted steps room =
    run-IsCounted_from steps listen (omega arith)
      (record { remaining = refl; reported = refl; every = refl })
