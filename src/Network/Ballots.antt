-- ===== src/Network/Ballots.antt =====
-- The actions of crates/raftcore/src/types.rs that carry a vote, among those of a method of
-- crates/raftcore/src/lib.rs.
use ferris_ferry.Prelude.{
  ℕ, ◌+◌, ◌≡◌, refl, sym, ap, ◌∙◌, ◌⊎◌, inl, inr, some, List, [], ◌∷◌, ◌++◌, Bool, true, false,
  if◌then◌else◌, map, map_result, ok, >>=-eq-ok, arith,
}
use ferris_ferry.Types.{
  NodeId, LogEntry, Message, request_vote_response, Action, send_message, persist_metadata,
}
use ferris_ferry.Core.State.{RaftCore}
use ferris_ferry.Core.Replicate.{build_append_entries_for_peer, append_entries_to_peers}
use ferris_ferry.Core.Append.{apply_actions}
use ferris_ferry.Core.Commit.{ready_barriers}

-- `x` is an element.
abbrev pub In : {A : Type 0} → A → List A → Type 0
In x [] = ⊥
In x (y ∷ ys) = (x ≡ y) ⊎ In x ys

module _ {A : Type 0} where
  pub In-append : (x : A) (xs ys : List A) → In x (xs ++ ys) → In x xs ⊎ In x ys
  In-append x [] ys h = inr h
  In-append x (y ∷ xs) ys (inl e) = inl (inl e)
  In-append x (y ∷ xs) ys (inr h) = elim (In-append x xs ys h) [
    | inl m ↦ inl (inr m)
    | inr m ↦ inr m
  ]

  pub In-append_left : (x : A) (xs ys : List A) → In x xs → In x (xs ++ ys)
  In-append_left x [] ys h = elim h [ ]
  In-append_left x (y ∷ xs) ys (inl e) = inl e
  In-append_left x (y ∷ xs) ys (inr h) = inr (In-append_left x xs ys h)

  pub In-append_right : (x : A) (xs ys : List A) → In x ys → In x (xs ++ ys)
  In-append_right x [] ys h = h
  In-append_right x (y ∷ xs) ys h = inr (In-append_right x xs ys h)

-- A vote that is written down, or granted to a candidate.
abbrev pub is_ballot : Action → Bool
is_ballot (persist_metadata term (some v)) = true
is_ballot (send_message target (request_vote_response resp)) = resp.vote_granted
is_ballot _ = false

unfoldable pub ballots : List Action → List Action
ballots [] = []
ballots (a ∷ rest) = let later = ballots rest in if is_ballot a then a ∷ later else later

pub ballots-append : (xs ys : List Action) → ballots (xs ++ ys) ≡ ballots xs ++ ballots ys
unfolding ballots
ballots-append [] ys = refl
ballots-append (x ∷ xs) ys = ground (arith, ballots-append xs ys)

pub In-ballots : (a : Action) (xs : List Action) → is_ballot a ≡ true → In a xs → In a (ballots xs)
unfolding ballots
In-ballots a [] h m = elim m [ ]
In-ballots a (x ∷ xs) h (inl e) = rw (ap is_ballot (sym e) ∙ h) (inl e)
In-ballots a (x ∷ xs) h (inr m) = keep (is_ballot x) (In-ballots a xs h m)
  where
    keep : (b : Bool) → In a (ballots xs) → In a (if b then x ∷ ballots xs else ballots xs)
    keep true i = inr i
    keep false i = i

pub ballots-cons :
    (a : Action) (xs : List Action) → is_ballot a ≡ false → ballots (a ∷ xs) ≡ ballots xs
unfolding ballots
ballots-cons a xs h = rw h refl

-- What is sent to peers, applied, and released carries no vote.
pub build-ballots :
    (c : RaftCore) (peer : NodeId) {a : Action}
    → build_append_entries_for_peer c peer ≡ ok a
    → is_ballot a ≡ false
unfolding build_append_entries_for_peer
build-ballots c peer h = ground arith

map_build-ballots :
    (c : RaftCore) (peers : List NodeId) {sent : List Action}
    → map_result (build_append_entries_for_peer c) peers ≡ ok sent
    → ballots sent ≡ []
unfolding map_result ballots
map_build-ballots c [] h = ground arith
map_build-ballots c (p ∷ ps) h =
    let (a, e, k) = >>=-eq-ok (build_append_entries_for_peer c p) _ h in
    let (rest, e', k') = >>=-eq-ok (map_result (build_append_entries_for_peer c) ps) _ k in
    ground (arith, build-ballots c p e, map_build-ballots c ps e', k')

pub append_entries_to_peers-ballots :
    (c : RaftCore) {sent : List Action} → append_entries_to_peers c ≡ ok sent → ballots sent ≡ []
unfolding append_entries_to_peers
append_entries_to_peers-ballots c h = map_build-ballots c c.peers h

pub map_ask-ballots :
    (m : Message) (peers : List NodeId)
    → ((p : NodeId) → is_ballot (send_message p m) ≡ false)
    → ballots (map (λ p. send_message p m) peers) ≡ []
unfolding ballots
map_ask-ballots m [] h = refl
map_ask-ballots m (p ∷ ps) h = ground (arith, h p, map_ask-ballots m ps h)

pub apply_actions-ballots :
    (base index : ℕ) (es : List LogEntry) → ballots (apply_actions base index es) ≡ []
unfolding apply_actions ballots
apply_actions-ballots base index [] = refl
apply_actions-ballots base index (e ∷ es) = apply_actions-ballots base (index + 1) es

pub ready_barriers-ballots :
    (count quorum : ℕ) (m : List (ℕ × ℕ)) → ballots (ready_barriers count quorum m) ≡ []
unfolding ready_barriers ballots
ready_barriers-ballots count quorum [] = refl
ready_barriers-ballots count quorum ((id, n) ∷ m) =
    ground (arith, ready_barriers-ballots count quorum m)
