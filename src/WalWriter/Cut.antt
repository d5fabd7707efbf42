-- ===== src/WalWriter/Cut.antt =====
-- What the replay makes of a file that a crash has cut short.
use mathlib.Core.Path.{subst}
use message_driven_event_que.Prelude.{
  ℕ, ◌≡◌, ◌⊎◌, inl, inr, refl, ap, sym, ◌∙◌, List, [], ◌∷◌, ◌++◌, append_assoc, none, if◌then◌else◌,
  All, nat_eq,
}
use message_driven_event_que.Message.{Bytes}
use message_driven_event_que.WalWriter.{Record, read_record, recovered}
use message_driven_event_que.WalWriter.Format.{encode, Fits}
use message_driven_event_que.WalWriter.Reading.{read_record_torn}
use message_driven_event_que.WalWriter.Replay.{
  log, latest, ever_acked, find, DistinctIds, recovered-log,
}

append_split :
    (xs zs ys ws : Bytes)
    → xs ++ ys ≡ zs ++ ws
    → ((more : Bytes) × (zs ≡ xs ++ more) × (ys ≡ more ++ ws))
      ⊎ ((b : ℕ) × (missing : Bytes) × (xs ≡ zs ++ b ∷ missing))
append_split [] zs ys ws e = inl (zs, refl, e)
append_split (x ∷ xs) [] ys ws e = inr (x, xs, refl)
append_split (x ∷ xs) (z ∷ zs) ys ws e =
    let heads : x ≡ z = cc in
    let tails : xs ++ ys ≡ zs ++ ws = cc in
    elim (append_split xs zs ys ws tails) [
      | inl (more, a, b) ↦ inl (more, cc, b)
      | inr (b, missing, a) ↦ inr (b, missing, cc)
    ]

All-front : (xs ys : List Record) → All Fits (xs ++ ys) → All Fits xs
All-front [] ys h = tt
All-front (x ∷ xs) ys h = (h.0, All-front xs ys h.1)

-- Where a log ends after some of its bytes: whole records, and a record cut short, or none.
cut_log :
    (rs : List Record) (front back : Bytes)
    → All Fits rs
    → front ++ back ≡ log rs
    → (done : List Record) × (lost : List Record) × (torn : Bytes) × (rs ≡ done ++ lost)
      × (front ≡ log done ++ torn)
      × (read_record torn ≡ none)
cut_log [] [] back fits e = ([], [], [], refl, refl, unfold read_record in refl)
cut_log [] (b ∷ front) back fits e = cc
cut_log (r ∷ rs) front back fits e = elim (append_split (encode r) front (log rs) back (sym e)) [
  | inl (more, front_eq, rest_eq) ↦
      let (done, lost, torn, split, cut, stop) = cut_log rs more back fits.1 (sym rest_eq) in
      (
        r ∷ done,
        lost,
        torn,
        ap (λ (l : List Record). r ∷ l) split,
        front_eq
            ∙ ap (λ (l : Bytes). encode r ++ l) cut
            ∙ sym (append_assoc (encode r) (log done) torn),
        stop,
      )
  | inr (b, missing, short) ↦
      ([], r ∷ rs, front, refl, refl, read_record_torn r front b missing fits.0 (sym short))
]

-- A file holds some number of the first records whole, and then bytes that are no whole record; what is
-- recovered under the id is what those records say, and no id is recovered twice.
abbrev pub RecoversFront : List Record → Bytes → ℕ → Type 0
RecoversFront rs file id =
    (whole : List Record) × (lost : List Record) × (torn : Bytes) × (rs ≡ whole ++ lost)
    × (file ≡ log whole ++ torn)
    × (read_record torn ≡ none)
    × (find id (recovered file) ≡ (if ever_acked id whole then none else latest id whole))
    × DistinctIds (recovered file)

-- So it is with every file that holds a front part of a log's bytes.
pub recovered_cut :
    (rs : List Record) (front back : Bytes) (id : ℕ)
    → All Fits rs
    → front ++ back ≡ log rs
    → RecoversFront rs front id
recovered_cut rs front back id fits e =
    let (whole, lost, torn, split, cut, stop) = cut_log rs front back fits e in
    let fits' = All-front whole lost (subst (All Fits) split fits) in
    let (found, distinct) = recovered-log whole torn id fits' stop in
    (
      whole,
      lost,
      torn,
      split,
      cut,
      stop,
      subst
          (λ (l : Bytes).
            find id (recovered l) ≡ (if ever_acked id whole then none else latest id whole))
          (sym cut) found,
      subst (λ (l : Bytes). DistinctIds (recovered l)) (sym cut) distinct,
    )
