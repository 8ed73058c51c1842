-- ===== src/Transport/Thinning.antt =====
-- Some of a list of messages of crates/raft-tcp-transport/src/lib.rs, in their order, with the newest of them.
use ferris_ferry.Prelude.{
  ◌≡◌, refl, sym, ◌∙◌, subst, ◌⊎◌, inl, inr, Option, none, some, List, [], ◌∷◌, ◌++◌, append-nil,
}
use ferris_ferry.Types.{Message}

-- `xs` is `ys` with some elements left out.
abbrev pub Sublist : List Message → List Message → Type 0
Sublist [] ys = Unit
Sublist (x ∷ xs) [] = ⊥
Sublist (x ∷ xs) (y ∷ ys) = ((x ≡ y) × Sublist xs ys) ⊎ Sublist (x ∷ xs) ys

abbrev pub last : List Message → Option Message
last [] = none
last (x ∷ []) = some x
last (x ∷ y ∷ xs) = last (y ∷ xs)

last-snoc : (xs : List Message) (m : Message) → last (xs ++ m ∷ []) ≡ some m
last-snoc [] m = refl
last-snoc (x ∷ []) m = refl
last-snoc (x ∷ y ∷ xs) m = last-snoc (y ∷ xs) m

Sublist-snoc :
    (xs ys : List Message) (m : Message) → Sublist xs ys → Sublist (xs ++ m ∷ []) (ys ++ m ∷ [])
Sublist-snoc [] [] m h = inl (refl, tt)
Sublist-snoc [] (y ∷ ys) m h = inr (Sublist-snoc [] ys m tt)
Sublist-snoc (x ∷ xs) [] m h = absurd h
Sublist-snoc (x ∷ xs) (y ∷ ys) m (inl (e, h)) = inl (e, Sublist-snoc xs ys m h)
Sublist-snoc (x ∷ xs) (y ∷ ys) m (inr h) = inr (Sublist-snoc (x ∷ xs) ys m h)

-- The last element may be left out as well.
Sublist-init : (xs ys : List Message) (m : Message) → Sublist (xs ++ m ∷ []) ys → Sublist xs ys
Sublist-init [] ys m h = tt
Sublist-init (x ∷ xs) [] m h = absurd h
Sublist-init (x ∷ xs) (y ∷ ys) m (inl (e, h)) = inl (e, Sublist-init xs ys m h)
Sublist-init (x ∷ xs) (y ∷ ys) m (inr h) = inr (Sublist-init (x ∷ xs) ys m h)

abbrev pub held : Option Message → List Message
held none = []
held (some m) = m ∷ []

-- Some of the messages that came, in their order, and the newest of them.
pub record Thinned (xs ys : List Message) : Type 0 where
  pub sublist : Sublist xs ys
  pub newest : last xs ≡ last ys

pub added :
    (xs ys : List Message) (m : Message) → Thinned xs ys → Thinned (xs ++ m ∷ []) (ys ++ m ∷ [])
added xs ys m t = record {
  sublist = Sublist-snoc xs ys m t.sublist;
  newest = last-snoc xs m ∙ sym (last-snoc ys m);
}

pub Sublist-held :
    (xs ys : List Message) (o : Option Message) → Sublist (xs ++ held o) ys → Sublist xs ys
Sublist-held xs ys none h = subst (λ zs. Sublist zs ys) (append-nil xs) h
Sublist-held xs ys (some a) h = Sublist-init xs ys a h

-- A message is kept in place of an older one.
pub replaced :
    (xs ys : List Message) (o : Option Message) (m : Message)
    → Thinned (xs ++ held o) ys
    → Thinned (xs ++ m ∷ []) (ys ++ m ∷ [])
replaced xs ys o m t = record {
  sublist = Sublist-snoc xs ys m (Sublist-held xs ys o t.sublist);
  newest = last-snoc xs m ∙ sym (last-snoc ys m);
}
