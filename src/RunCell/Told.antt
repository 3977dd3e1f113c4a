-- ===== src/RunCell/Told.antt =====
-- What the pages of `src/worker/durable-objects/WorkflowRunDO.ts` tell other cells before they delete.
use world_celld.Common.{
  ℕ, zero, suc, ◌≤◌, ◌≡◌, refl, sym, ap, ◌∙◌, Bool-cases, if-rule, String, Bool, true, false, List,
  [], ◌∷◌, ◌++◌, ◌⊎◌, inl, inr, arith, eq_refl, eq_iff, length, take, ◌==◌,
}
use world_celld.Apply.Entities.{HookReference}
use world_celld.RunCell.Pages.{
  Value, StoredEntry, marker, registration, other, of_kind, page_keys, has_key, drop_keys,
  references_of,
}

abbrev pub In : {A : Type 0} → A → List A → Type 0
In x [] = ⊥
In x (y ∷ ys) = (x ≡ y) ⊎ In x ys

pub In-left : {A : Type 0} (x : A) (xs ys : List A) → In x xs → In x (xs ++ ys)
In-left x [] ys h = ground (arith, h)
In-left x (y ∷ xs) ys (inl same) = inl same
In-left x (y ∷ xs) ys (inr h) = inr (In-left x xs ys h)

pub In-right : {A : Type 0} (x : A) (xs ys : List A) → In x ys → In x (xs ++ ys)
In-right x [] ys h = h
In-right x (y ∷ xs) ys h = inr (In-right x xs ys h)

pub In-take : {A : Type 0} (x : A) (n : ℕ) (xs : List A) → In x (take n xs) → In x xs
In-take x zero xs h = ground (arith, h)
In-take x (suc n) [] h = h
In-take x (suc n) (y ∷ xs) (inl same) = inl same
In-take x (suc n) (y ∷ xs) (inr h) = inr (In-take x n xs h)

pub In-take_all :
    {A : Type 0} (x : A) (n : ℕ) (xs : List A) → length xs ≤ n → In x xs → In x (take n xs)
In-take_all x n [] few h = ground (arith, h)
In-take_all x zero (y ∷ xs) few h = ground (arith, few)
In-take_all x (suc n) (y ∷ xs) few (inl same) = inl same
In-take_all x (suc n) (y ∷ xs) few (inr h) = inr (In-take_all x n xs (omega arith) h)

pub In-page_keys :
    (e : StoredEntry) (page : List StoredEntry) → In e page → has_key e.key (page_keys page) ≡ true
In-page_keys e [] h = ground (arith, h)
In-page_keys e (p ∷ page) (inl same) = rw same (ground (arith, eq_refl p.key))
In-page_keys e (p ∷ page) (inr h) = ground (arith, In-page_keys e page h)

pub page_keys-In :
    (k : String) (page : List StoredEntry)
    → has_key k (page_keys page) ≡ true
    → (p : StoredEntry) × (In p page) × (k ≡ p.key)
page_keys-In k [] h = ground (arith, h)
page_keys-In k (p ∷ page) h = elim (Bool-cases (k == p.key)) [
  | inl here ↦ (p, inl refl, ground (arith, eq_iff k p.key, here))
  | inr elsewhere ↦
      (let (q, i, same) = page_keys-In k page (ground (arith, h, elsewhere)) in (q, inr i, same))
]

pub of_kind-is :
    (f : Value → Bool) (e : StoredEntry) (es : List StoredEntry)
    → In e (of_kind f es)
    → In e es × (f e.value ≡ true)
of_kind-is f e [] h = ground (arith, h)
of_kind-is f e (x ∷ es) h =
    if-rule (λ l. In e l → In e (x ∷ es) × (f e.value ≡ true)) (f x.value) (x ∷ of_kind f es)
      (of_kind f es)
      (λ yes' h. elim h [
        | inl same ↦ (inl same, rw same yes')
        | inr i ↦ (inr (of_kind-is f e es i).0, (of_kind-is f e es i).1)
      ])
      (λ _ i. (inr (of_kind-is f e es i).0, (of_kind-is f e es i).1)) h

pub of_kind-In :
    (f : Value → Bool) (e : StoredEntry) (es : List StoredEntry)
    → In e es
    → f e.value ≡ true
    → In e (of_kind f es)
of_kind-In f e [] h k = h
of_kind-In f e (x ∷ es) (inl same) k = rw (ap (λ y. f y.value) (sym same) ∙ k) (inl same)
of_kind-In f e (x ∷ es) (inr h) k =
    if-rule (In e) (f x.value) (x ∷ of_kind f es) (of_kind f es) (λ _. inr (of_kind-In f e es h k))
      (λ _. of_kind-In f e es h k)

pub drop_keys-is :
    (ks : List String) (e : StoredEntry) (es : List StoredEntry)
    → In e (drop_keys ks es)
    → In e es × (has_key e.key ks ≡ false)
drop_keys-is ks e [] h = ground (arith, h)
drop_keys-is ks e (x ∷ es) h =
    if-rule (λ l. In e l → In e (x ∷ es) × (has_key e.key ks ≡ false)) (has_key x.key ks)
      (drop_keys ks es) (x ∷ drop_keys ks es)
      (λ _ i. (inr (drop_keys-is ks e es i).0, (drop_keys-is ks e es i).1))
      (λ no' h. elim h [
        | inl same ↦ (inl same, rw same no')
        | inr i ↦ (inr (drop_keys-is ks e es i).0, (drop_keys-is ks e es i).1)
      ])
      h

pub drop_keys-In :
    (ks : List String) (e : StoredEntry) (es : List StoredEntry)
    → In e es
    → has_key e.key ks ≡ false
    → In e (drop_keys ks es)
drop_keys-In ks e [] h k = h
drop_keys-In ks e (x ∷ es) (inl same) k = rw (ap (λ y. has_key y.key ks) (sym same) ∙ k) (inl same)
drop_keys-In ks e (x ∷ es) (inr h) k =
    if-rule (In e) (has_key x.key ks) (drop_keys ks es) (x ∷ drop_keys ks es)
      (λ _. drop_keys-In ks e es h k) (λ _. inr (drop_keys-In ks e es h k))

pub references_of-In :
    (m : HookReference) (e : StoredEntry) (page : List StoredEntry)
    → e.value ≡ marker m
    → In e page
    → In m (references_of page)
references_of-In m e [] v h = ground (arith, h)
references_of-In m e (p ∷ page) v (inl same) = rw (ap (λ y. y.value) (sym same) ∙ v) (inl refl)
references_of-In m e (p ∷ page) v (inr h) = on p.value (references_of-In m e page v h)
  where
    on :
        (u : Value)
        → In m (references_of page)
        → In m (elim u [
          | marker r ↦ r ∷ references_of page
          | registration key ↦ references_of page
          | other ↦ references_of page
        ])
    on (marker r) later = inr later
    on (registration key) later = later
    on other later = later
