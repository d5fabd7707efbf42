-- ===== src/TopicRouter/Fairness.antt =====
-- Round robin: a group's members take turns.
use mathlib.Core.Path.{ap₂}
use mathlib.Core.List.{Perm, perm_append_comm}
use mathlib.Core.List.Perm
use native.Mathlib.Nat.{mod-add-mod, mod-eq_of_lt}
use message_driven_event_que.Prelude.{
  ℕ, zero, suc, ◌+◌, ◌-◌, ◌%◌, ◌^◌, ◌<◌, ◌≤◌, ◌≡◌, refl, sym, ap, ◌∙◌, false, List, [], ◌∷◌, ◌++◌,
  arith, length, get_or, take, drop, take-append-drop, length-take, length-drop, take-length,
}
use message_driven_event_que.Prelude.Int.{pos}
use message_driven_event_que.Message.{Bytes, ClientId}
use message_driven_event_que.TopicRouter.{GroupState, is_empty, is_unique, route_group}
use message_driven_event_que.TopicRouter.Routing.{rr_idx-lt}
use message_driven_event_que.TopicRouter.Reach.{clients}

-- The members that a group's next messages go to.
pub picks : List ℕ → Bytes → GroupState → List ClientId
picks [] name s = []
picks (n ∷ ns) name s = clients (route_group n name s).0 ++ picks ns name (route_group n name s).1

abbrev advanced : GroupState → ℕ → GroupState
advanced s k = record s { rr_idx = s.rr_idx + k }

route_group_shared :
    (n : ℕ) (name : Bytes) (s : GroupState)
    → is_empty s.members ≡ false
    → is_unique name ≡ false
    → s.rr_idx + 1 < 2 ^ 64
    → route_group n name s
      ≡ ((get_or s.members (s.rr_idx % length s.members) (pos 0), n) ∷ [], advanced s 1)
unfolding route_group
route_group_shared n name s some_member shared room =
    let small : (s.rr_idx + 1) % 2 ^ 64 ≡ s.rr_idx + 1 = omega arith in
    rw (some_member, shared, small)

next_mod : (r n i : ℕ) → r % n ≡ i → i + 1 < n → (r + 1) % n ≡ i + 1
next_mod r n i h lt = sym (mod-add-mod r n 1) ∙ rw h (mod-eq_of_lt lt)

sub_mod : (n : ℕ) → n % n ≡ 0
sub_mod n = grind arith

wrap_mod : (r n i : ℕ) → r % n ≡ i → i + 1 ≡ n → (r + 1) % n ≡ 0
wrap_mod r n i h e = sym (mod-add-mod r n 1) ∙ rw (h, e) (sub_mod n)

drop-get_or :
    (i : ℕ) (ms : List ClientId) → i < length ms → drop i ms ≡ get_or ms i (pos 0) ∷ drop (suc i) ms
drop-get_or i [] h = absurd (omega arith)
drop-get_or zero (m ∷ ms) h = refl
drop-get_or (suc i) (m ∷ ms) h = drop-get_or i ms (omega arith)

-- Up to the end of the members, the picks go down the list.
picks_ahead :
    (ns : List ℕ) (name : Bytes) (s : GroupState) (i : ℕ)
    → is_unique name ≡ false
    → is_empty s.members ≡ false
    → (0 < length ns → s.rr_idx % length s.members ≡ i)
    → i + length ns ≤ length s.members
    → s.rr_idx + length ns < 2 ^ 64
    → picks ns name s ≡ take (length ns) (drop i s.members)
unfolding picks
picks_ahead [] name s i shared some_member at fits room = refl
picks_ahead (n ∷ ns) name s i shared some_member at fits room =
    let here = at (omega arith) in
    let step = route_group_shared n name s some_member shared (omega arith) in
    rw (step, here, drop-get_or i s.members (omega arith))
      (ap (λ (l : List ClientId). get_or s.members i (pos 0) ∷ l)
        (picks_ahead ns name (advanced s 1) (suc i) shared some_member
          (λ more. next_mod s.rr_idx (length s.members) i here (omega arith) ∙ (omega arith))
          (omega arith) (omega arith)))

picks-append :
    (ms ns : List ℕ) (name : Bytes) (s : GroupState)
    → is_unique name ≡ false
    → is_empty s.members ≡ false
    → s.rr_idx + length ms < 2 ^ 64
    → picks (ms ++ ns) name s ≡ picks ms name s ++ picks ns name (advanced s (length ms))
unfolding picks
picks-append [] ns name s shared some_member room =
    let e : s.rr_idx ≡ s.rr_idx + 0 = omega arith in
    ap (λ (t : ℕ). picks ns name (record s { rr_idx = t })) e
picks-append (m ∷ ms) ns name s shared some_member room =
    let step = route_group_shared m name s some_member shared (omega arith) in
    let e : s.rr_idx + 1 + length ms ≡ s.rr_idx + suc (length ms) = omega arith in
    rw step (
      ap (λ (l : List ClientId). get_or s.members (s.rr_idx % length s.members) (pos 0) ∷ l)
        (picks-append ms ns name (advanced s 1) shared some_member (omega arith)
          ∙ ap (λ (t : ℕ). picks ms name (advanced s 1) ++ picks ns name (record s { rr_idx = t }))
              e))

round_end : (r n i : ℕ) → r % n ≡ i → i ≤ n → (r + (n - i)) % n ≡ 0
round_end r n i h le =
    let whole : i + (n - i) ≡ n = omega arith in
    sym (mod-add-mod r n (n - i)) ∙ rw (h, whole) (sub_mod n)

-- Over as many messages as a shared group has members, each member gets exactly one: the picks are
-- the list of members, begun at the group's index and gone round once. (The index counts messages
-- and has 64 bits; it does not wrap in these rounds.)
pub picks_round :
    (ns : List ℕ) (name : Bytes) (s : GroupState)
    → is_unique name ≡ false
    → is_empty s.members ≡ false
    → length ns ≡ length s.members
    → s.rr_idx + length ns < 2 ^ 64
    → (picks ns name s
        ≡ drop (s.rr_idx % length s.members) s.members
          ++ take (s.rr_idx % length s.members) s.members)
      × Perm (picks ns name s) s.members
picks_round ns name s shared some_member size room = (e, perm)
  where
    n : ℕ
    n = length s.members

    i : ℕ
    i = s.rr_idx % n

    i-lt : i < n
    i-lt = rr_idx-lt s.rr_idx s.members some_member

    length-first : length (take (n - i) ns) ≡ n - i
    length-first = omega (arith, length-take (n - i) ns)

    length-second : length (drop (n - i) ns) ≡ i
    length-second = omega (arith, i-lt, length-drop (n - i) ns)

    first : picks (take (n - i) ns) name s ≡ drop i s.members
    first =
        picks_ahead (take (n - i) ns) name s i shared some_member (λ _. refl)
          (omega (arith, i-lt, length-first)) (omega (arith, i-lt, length-first))
        ∙ ap (λ (k : ℕ). take k (drop i s.members))
            (omega (arith, length-first, length-drop i s.members))
        ∙ take-length (drop i s.members)

    second : picks (drop (n - i) ns) name (advanced s (n - i)) ≡ take i s.members
    second =
        picks_ahead (drop (n - i) ns) name (advanced s (n - i)) 0 shared some_member
          (λ _. round_end s.rr_idx n i refl (omega (arith, i-lt)))
          (omega (arith, i-lt, length-second)) (omega (arith, i-lt, length-second))
        ∙ rw length-second

    e : picks ns name s ≡ drop i s.members ++ take i s.members
    e =
        ap (λ (l : List ℕ). picks l name s) (sym (take-append-drop (n - i) ns))
        ∙ picks-append (take (n - i) ns) (drop (n - i) ns) name s shared some_member
            (omega (arith, i-lt, length-first))
        ∙ ap
            (λ (k : ℕ).
              picks (take (n - i) ns) name s ++ picks (drop (n - i) ns) name (advanced s k))
            length-first
        ∙ ap₂ (λ (a b : List ClientId). a ++ b) first second

    perm : Perm (picks ns name s) s.members
    perm = rw e (
        Perm.trans (perm_append_comm (drop i s.members) (take i s.members))
          (rw (take-append-drop i s.members) (Perm.refl s.members)))
