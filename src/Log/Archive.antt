-- ===== src/Log/Archive.antt =====
-- log/log.go: a run of a Logger that rolls its file, and the names under which it keeps the files.
use mathlib.Core.Path.{subst}
use wqs.Common.{
  Bool, false, not, ◌&&◌, if◌then◌else◌, All, codes, ◌≡◌, refl, ap, ltb, ◌∙◌, sym, ℕ, zero, suc,
  ◌+◌, true, Option, none, some, List, [], ◌∷◌, ◌++◌, Bytes, arith, Bool-cases, inl, inr,
}
use mathlib.Core.List.{append_assoc, append-nil}
use wqs.Common.Int.{ℤ, ◌+ℤ◌, ltb_ℤ}
use wqs.Log.{rolls, Logger, TimeOps, with_newline, with_newline}
use wqs.Log.Prefix.{Small, IsSmall, IsSome, format_prefix-IsSome}
use wqs.Log.Rolling.{
  log_text, logs, Call, Files, archive_name, rolled, rotate, due, output, line_of, line_with,
  caller_of,
}

-- The line of the caller fits in 20 digits.
abbrev pub IsShort : Option (Bytes × ℕ) → Type 0
IsShort none = Unit
IsShort (some (file, line)) = Small line

caller_of-Small :
    (flags : ℕ) (caller : Option (Bytes × ℕ)) → IsShort caller → Small (caller_of flags caller).1
caller_of-Small flags none h = ground arith
caller_of-Small flags (some (file, line)) h = ground arith

-- The names of `k` successive periods from a time on, each with the name of the file.
pub archive_names : Bytes → (ℤ → Bytes) → ℤ → ℕ → ℤ → List (Bytes × Bytes)
archive_names file format period zero t = []
archive_names file format period (suc k) t =
    (file, file ++ (codes "." ++ format t)) ∷ archive_names file format period k (t +ℤ period)

-- How often a run of calls rotates: the first call whose line is written later than the end of the
-- period does, which moves that end on by one period, and so on.
pub rotation_count : List Call → Bool → ℕ → ℤ → ℤ → ℕ
rotation_count [] rolling level end period = 0
rotation_count (c ∷ calls) rolling level end period =
    let ends = rolling && (not (ltb level c.level) && ltb_ℤ end c.now) in
    let rest = rotation_count calls rolling level (if ends then end +ℤ period else end) period in
    if ends then suc rest else rest

abbrev rotations_of : List Call → Logger → ℕ
rotations_of calls l = rotation_count calls (rolls l.rolling) l.level l.to_roll l.duration

abbrev once : Bool → ℕ
once true = 1
once false = 0

abbrev rotates_on : Logger → Call → Bool
rotates_on l c = rolls l.rolling && (not (ltb l.level c.level) && ltb_ℤ l.to_roll c.now)

module _ (time : TimeOps) where
  -- The logger and the renamings after `k` rotations, one period each.
  pub rolled_often : ℕ → Logger → Option ℕ → Logger
  rolled_often zero l fd = record l { fd = fd }
  rolled_often (suc k) l fd = rolled_often k (rolled l l.fd) fd

  pub archives : ℕ → Logger → List (Bytes × Bytes)
  archives zero l = []
  archives (suc k) l = (l.file_name, archive_name time l) ∷ archives k (rolled l l.fd)

  rolled_often_fd :
      (k : ℕ) (l : Logger) (fd fd' : Option ℕ)
      → rolled_often k (record l { fd = fd }) fd' ≡ rolled_often k l fd'
  unfolding rolled_often
  rolled_often_fd zero l fd fd' = refl
  rolled_often_fd (suc k) l fd fd' = rolled_often_fd k (rolled l l.fd) fd fd'

  archives_fd :
      (k : ℕ) (l : Logger) (fd : Option ℕ) → archives k (record l { fd = fd }) ≡ archives k l
  unfolding archives archive_name
  archives_fd zero l fd = refl
  archives_fd (suc k) l fd =
      ap (◌∷◌ (l.file_name, archive_name time l)) (archives_fd k (rolled l l.fd) fd)

  archives-archive_names :
      (k : ℕ) (l : Logger)
      → archives k l
        ≡ archive_names l.file_name (λ t. time.format t l.file_suffix) l.duration k l.suffix_time
  unfolding archives archive_names archive_name
  archives-archive_names zero l = refl
  archives-archive_names (suc k) l =
      ap (◌∷◌ (l.file_name, archive_name time l)) (archives-archive_names k (rolled l l.fd))

  rolled_often-add :
      (k j n : ℕ) (l : Logger) (fd fd' : Option ℕ)
      → n ≡ k + j
      → rolled_often j (rolled_often k l fd) fd' ≡ rolled_often n l fd'
  unfolding rolled_often
  rolled_often-add zero j n l fd fd' e =
      let same : j ≡ n = omega arith in
      rolled_often_fd j l fd fd' ∙ ap (λ m. rolled_often m l fd') same
  rolled_often-add (suc k) j zero l fd fd' e = absurd (omega arith)
  rolled_often-add (suc k) j (suc n) l fd fd' e =
      rolled_often-add k j n (rolled l l.fd) fd fd' (omega arith)

  rotations_of-cons :
      (c : Call) (calls : List Call) (l : Logger) (fd : Option ℕ)
      → once (rotates_on l c) + rotations_of calls (rolled_often (once (rotates_on l c)) l fd)
        ≡ rotations_of (c ∷ calls) l
  unfolding rotation_count rolled_often
  rotations_of-cons c calls l fd = elim (Bool-cases (rotates_on l c)) [
    | inl rotates ↦ rw rotates (omega arith)
    | inr stays ↦ rw stays (omega arith)
  ]

  archives-add :
      (k j n : ℕ) (l : Logger) (fd : Option ℕ)
      → n ≡ k + j
      → archives k l ++ archives j (rolled_often k l fd) ≡ archives n l
  unfolding archives rolled_often
  archives-add zero j n l fd e =
      let same : j ≡ n = omega arith in archives_fd j l fd ∙ ap (λ m. archives m l) same
  archives-add (suc k) j zero l fd e = absurd (omega arith)
  archives-add (suc k) j (suc n) l fd e =
      ap (◌∷◌ (l.file_name, archive_name time l))
        (archives-add k j n (rolled l l.fd) fd (omega arith))

module _ {S : Type 0} (time : TimeOps) (files : Files S) (renamed : S → List (Bytes × Bytes)) where
  -- Closing, renaming and opening succeed, and `renamed` is the record of the renamings.
  pub record IsWorking : Type 0 where
    pub closes : (fd : Option ℕ) (s : S) → (files.close fd s).1 ≡ true
    pub close_keeps : (fd : Option ℕ) (s : S) → renamed (files.close fd s).0 ≡ renamed s
    pub renames : (a b : Bytes) (s : S) → (files.rename a b s).1 ≡ true
    pub rename_adds :
        (a b : Bytes) (s : S) → renamed (files.rename a b s).0 ≡ renamed s ++ (a, b) ∷ []
    pub opens : (a : Bytes) (s : S) → (fd : ℕ) × ((files.open_append a s).1 ≡ some fd)
    pub open_keeps : (a : Bytes) (s : S) → renamed (files.open_append a s).0 ≡ renamed s
    pub write_keeps :
        (fd : Option ℕ) (a : Bytes) (s : S) → renamed (files.write fd a s).0 ≡ renamed s
    pub local_small : (t : ℤ) → IsSmall (time.local t)
    pub utc_small : (t : ℤ) → IsSmall (time.utc t)

  -- After so many rotations.
  pub record Rolled (l : Logger) (s : S) (rotations : ℕ) (r : S × Option Logger) : Type 0 where
    pub fd : Option ℕ
    pub left : r.1 ≡ some (rolled_often time rotations l fd)
    pub kept : renamed r.0 ≡ renamed s ++ archives time rotations l

  unrolled : (l : Logger) (s : S) → Rolled l s 0 (s, some l)
  unfolding rolled_often archives
  unrolled l s = record { fd = l.fd; left = refl; kept = sym (append-nil (renamed s)) }

  module _ (works : IsWorking) where
    rotate-Rolled :
        (l : Logger) (t : ℤ) (s : S) → Rolled l s (once (due l t)) (rotate time files l t s)
    unfolding rotate rolled_often archives
    rotate-Rolled l t s = elim (Bool-cases (due l t)) [
      | inl yes_due ↦
          let s1 = (files.close l.fd s).0 in
          let s2 = (files.rename l.file_name (archive_name time l) s1).0 in
          let (fd, opened) = works.opens l.file_name s2 in
          rw
            (
              yes_due,
              works.closes l.fd s,
              works.renames l.file_name (archive_name time l) s1,
              opened,
            )
            (record {
              fd = some fd;
              left = refl;
              kept =
                  works.open_keeps l.file_name s2
                  ∙ works.rename_adds l.file_name (archive_name time l) s1
                  ∙ ap (λ x. x ++ (l.file_name, archive_name time l) ∷ [])
                      (works.close_keeps l.fd s);
            })
      | inr not_due ↦ rw not_due (unrolled l s)
    ]

    line_of-IsSome :
        (l : Logger) (c : Call)
        → IsShort c.caller
        → IsSome (line_of time files l c.now c.caller c.level c.text)
    line_of-IsSome l c short =
        let at = caller_of l.flags c.caller in
        let (p, e) =
          format_prefix-IsSome time l.flags c.now at.0 at.1 c.level (works.local_small c.now)
            (works.utc_small c.now) (caller_of-Small l.flags c.caller short) in
        (p ++ with_newline c.text, ap (line_with c.text) e)

    output-Rolled :
        (l : Logger) (c : Call) (s : S)
        → IsShort c.caller
        → Rolled l s (once (due l c.now)) (output time files l c.now c.caller c.level c.text s)
    unfolding output
    output-Rolled l c s short =
        let r = rotate-Rolled l c.now s in
        let l' = rolled_often time (once (due l c.now)) l r.fd in
        let (line, e) = line_of-IsSome l' c short in
        rw (r.left, e)
          (record {
            fd = r.fd;
            left = refl;
            kept = works.write_keeps l'.fd line (rotate time files l c.now s).0 ∙ r.kept;
          })

  module _ (works : IsWorking) where
    log_text-Rolled :
        (l : Logger) (c : Call) (s : S)
        → IsShort c.caller
        → Rolled l s (once (rotates_on l c)) (log_text time files l c.now c.caller c.level c.text s)
    unfolding log_text
    log_text-Rolled l c s short = elim (Bool-cases (ltb l.level c.level)) [
      | inl above ↦
          let never : 0 ≡ once (rotates_on l c) = ground (arith, above) in
          subst (λ k. Rolled l s k (log_text time files l c.now c.caller c.level c.text s)) never
            (rw above (unrolled l s))
      | inr logged ↦
          let same : due l c.now ≡ (rolls l.rolling && ltb_ℤ l.to_roll c.now) = ground arith in
          rw logged (
            subst (λ b. Rolled l s (once b) (output time files l c.now c.caller c.level c.text s))
              same (output-Rolled works l c s short))
    ]

    logs-Rolled :
        (calls : List Call) (l : Logger) (s : S)
        → All (λ c. IsShort c.caller) calls
        → Rolled l s (rotations_of calls l) (logs time files calls l s)
    unfolding logs rotation_count
    logs-Rolled [] l s short = unrolled l s
    logs-Rolled (c ∷ calls) l s short =
        let now = once (rotates_on l c) in
        let r = log_text-Rolled l c s short.0 in
        let l' = rolled_often time now l r.fd in
        let s' = (log_text time files l c.now c.caller c.level c.text s).0 in
        let later = rotations_of calls l' in
        let q = logs-Rolled calls l' s' short.1 in
        let all : Rolled l s (now + later) (logs time files (c ∷ calls) l s) = rw r.left (record {
          fd = q.fd;
          left = q.left ∙ ap some (rolled_often-add time now later _ l r.fd q.fd refl);
          kept =
              q.kept
              ∙ ap (λ x. x ++ archives time later l') r.kept
              ∙ append_assoc (renamed s) (archives time now l) _
              ∙ ap (λ x. renamed s ++ x) (archives-add time now later _ l r.fd refl);
        }) in
        subst (λ k. Rolled l s k (logs time files (c ∷ calls) l s))
          (rotations_of-cons time c calls l r.fd) all

    -- With files that work, dates and line numbers of at most 20 digits, a run of calls does not
    -- end the program. Of a logger that rolls its file, the calls that rename it are those whose
    -- line is written later than the end of the period, which each of them moves on by one period;
    -- and the names are those of the periods from the first on, one for each such call.
    pub logs-archive_names :
        (calls : List Call) (l : Logger) (s : S)
        → All (λ c. IsShort c.caller) calls
        → IsSome (logs time files calls l s).1
          × (renamed (logs time files calls l s).0
              ≡ renamed s
                ++ archive_names l.file_name
                    (λ t. time.format t l.file_suffix)
                    l.duration
                    (rotation_count calls (rolls l.rolling) l.level l.to_roll l.duration)
                    l.suffix_time)
    logs-archive_names calls l s short =
        let r = logs-Rolled calls l s short in
        (
          (rolled_often time (rotations_of calls l) l r.fd, r.left),
          r.kept ∙ ap (λ x. renamed s ++ x) (archives-archive_names time (rotations_of calls l) l),
        )
