-- ===== src/Atop/Order/Laws.antt =====
-- The comparisons by user, program and container of Qt/FakeAtop/showlinux.c order the tasks consistently.
use practice.Base.{ℕ, ◌≡◌, refl, [], ◌∷◌, arith}
use practice.Base.Text.{Bytes}
use practice.Atop.Order.{
  Sign, before, same, after, descending, ascending, sign_rank, ascending_int, or_else, compusr,
  strcmp, compnam, compcon,
}

unfoldable pub opposite : Sign → Sign
opposite before = after
opposite same = same
opposite after = before

-- Two results in a row: the first sign that is not same, and after where they contradict.
unfoldable pub IsChain : Sign → Sign → Sign → Type 0
IsChain before before r = r ≡ before
IsChain before same r = r ≡ before
IsChain same before r = r ≡ before
IsChain same same r = r ≡ same
IsChain after after r = r ≡ after
IsChain after same r = r ≡ after
IsChain same after r = r ≡ after
IsChain before after r = Unit
IsChain after before r = Unit

-- A total preorder, as its signs show it.
pub record IsComparison {A : Type 0} (comp : A → A → Sign) : Type 0 where
  pub swap : (a b : A) → comp b a ≡ opposite (comp a b)
  pub chain : (a b c : A) → IsChain (comp a b) (comp b c) (comp a c)

ascending-swap : (a b : ℕ) → ascending b a ≡ opposite (ascending a b)
unfolding ascending opposite
ascending-swap a b = ground arith

ascending-IsChain : (a b c : ℕ) → IsChain (ascending a b) (ascending b c) (ascending a c)
unfolding ascending IsChain
ascending-IsChain a b c = ground arith

descending-swap : (a b : ℕ) → descending b a ≡ opposite (descending a b)
unfolding descending opposite
descending-swap a b = ground arith

descending-IsChain : (a b c : ℕ) → IsChain (descending a b) (descending b c) (descending a c)
unfolding descending IsChain
descending-IsChain a b c = ground arith

or_else-swap : (s t : Sign) → or_else (opposite s) (opposite t) ≡ opposite (or_else s t)
unfolding or_else opposite
or_else-swap before t = refl
or_else-swap same t = refl
or_else-swap after t = refl

or_else-IsChain :
    (s t r u v w : Sign)
    → IsChain s t r
    → IsChain u v w
    → IsChain (or_else s u) (or_else t v) (or_else r w)
unfolding or_else IsChain
or_else-IsChain s t r u v w h k = ground arith

module _ {A : Type 0} where
  by_ascending : (f : A → ℕ) → IsComparison (λ a b. ascending (f a) (f b))
  by_ascending f = record {
    swap = λ a b. ascending-swap (f a) (f b);
    chain = λ a b c. ascending-IsChain (f a) (f b) (f c);
  }

  by_descending : (f : A → ℕ) → IsComparison (λ a b. descending (f a) (f b))
  by_descending f = record {
    swap = λ a b. descending-swap (f a) (f b);
    chain = λ a b c. descending-IsChain (f a) (f b) (f c);
  }

  by_both :
      (p q : A → A → Sign)
      → IsComparison p
      → IsComparison q
      → IsComparison (λ a b. or_else (p a b) (q a b))
  by_both p q h k = record {
    swap = λ a b. rw (h.swap a b, k.swap a b) (or_else-swap (p a b) (q a b));
    chain = λ a b c.
        or_else-IsChain (p a b) (p b c) (p a c) (q a b) (q b c) (q a c) (h.chain a b c)
          (k.chain a b c);
  }

strcmp-swap : (a b : Bytes) → strcmp b a ≡ opposite (strcmp a b)
unfolding strcmp opposite
strcmp-swap [] [] = refl
strcmp-swap [] (d ∷ b) = refl
strcmp-swap (c ∷ a) [] = refl
strcmp-swap (c ∷ a) (d ∷ b) =
    rw (ascending-swap c d, strcmp-swap a b) (or_else-swap (ascending c d) (strcmp a b))

strcmp-IsChain : (a b c : Bytes) → IsChain (strcmp a b) (strcmp b c) (strcmp a c)
unfolding strcmp IsChain
strcmp-IsChain [] [] [] = refl
strcmp-IsChain [] [] (z ∷ c) = refl
strcmp-IsChain [] (y ∷ b) [] = tt
strcmp-IsChain [] (y ∷ b) (z ∷ c) = go (or_else (ascending y z) (strcmp b c))
  where
    go : (s : Sign) → IsChain before s before
    go before = refl
    go same = refl
    go after = tt
strcmp-IsChain (x ∷ a) [] [] = refl
strcmp-IsChain (x ∷ a) [] (z ∷ c) = tt
strcmp-IsChain (x ∷ a) (y ∷ b) [] = go (or_else (ascending x y) (strcmp a b))
  where
    go : (s : Sign) → IsChain s after after
    go before = tt
    go same = refl
    go after = refl
strcmp-IsChain (x ∷ a) (y ∷ b) (z ∷ c) =
    or_else-IsChain (ascending x y) (ascending y z) (ascending x z) (strcmp a b) (strcmp b c)
      (strcmp a c) (ascending-IsChain x y z) (strcmp-IsChain a b c)

pub compusr-IsComparison : IsComparison compusr
unfolding compusr ascending_int
compusr-IsComparison =
    by_both _ _ (by_ascending (λ t. sign_rank t.gen.ruid)) (by_ascending (λ t. t.gen.ruid))

pub compnam-IsComparison : IsComparison compnam
unfolding compnam
compnam-IsComparison = record {
  swap = λ a b. strcmp-swap a.gen.name b.gen.name;
  chain = λ a b c. strcmp-IsChain a.gen.name b.gen.name c.gen.name;
}

pub compcon-IsComparison : IsComparison compcon
unfolding compcon
compcon-IsComparison = record {
  swap = λ a b. strcmp-swap a.gen.container b.gen.container;
  chain = λ a b c. strcmp-IsChain a.gen.container b.gen.container c.gen.container;
}
