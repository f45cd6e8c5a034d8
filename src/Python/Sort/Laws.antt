-- ===== src/Python/Sort/Laws.antt =====
-- What the sort returns: when it does, in which order, and that it is stable.
use jsonpy_sql.Prelude.{
  ◌≡◌, refl, ◌∙◌, Bool, true, false, List, [], ◌∷◌, arith, filter_by, all_of, ◌&&◌,
}
use jsonpy_sql.Python.Result.{Result, ok, ◌>>=◌, ok-injective, call_returned}
use jsonpy_sql.Python.Sort.{precedes, insert_sorted, list_sort}

module _ {A : Type 0} (lt : A → A → Result Bool) (reverse : Bool) where
  -- Of two neighbours the later never goes before the earlier.
  abbrev pub IsSorted : List A → Type 0
  IsSorted [] = Unit
  IsSorted (x ∷ []) = Unit
  IsSorted (x ∷ y ∷ ys) = (precedes lt reverse y x ≡ ok false) × IsSorted (y ∷ ys)

  module _ (asymm : (a b : A) → lt a b ≡ ok true → lt b a ≡ ok false) where
    precedes_asymm :
        (r : Bool) (a b : A) → precedes lt r a b ≡ ok true → precedes lt r b a ≡ ok false
    precedes_asymm true a b h = asymm b a h
    precedes_asymm false a b h = asymm a b h

    -- What stands before an inserted element still does, if it may stand before both.
    insert_after :
        (w x : A) (ys zs : List A)
        → precedes lt reverse x w ≡ ok false
        → IsSorted (w ∷ ys)
        → insert_sorted lt reverse x ys ≡ ok zs
        → IsSorted (w ∷ zs)
    unfolding insert_sorted
    insert_after w x [] zs wx h e = rw (← ok-injective e) (wx, tt)
    insert_after w x (y ∷ ys) zs wx h e =
        let (b, q, t) = call_returned (precedes lt reverse y x) _ e in
        go (insert_after y x ys) b q t
      where
        go :
            ((ws : List A)
              → precedes lt reverse x y ≡ ok false
              → IsSorted (y ∷ ys)
              → insert_sorted lt reverse x ys ≡ ok ws
              → IsSorted (y ∷ ws))
            → (b : Bool) → precedes lt reverse y x ≡ ok b
            → elim b [
              | true ↦ insert_sorted lt reverse x ys >>= λ ws. ok (y ∷ ws)
              | false ↦ ok (x ∷ y ∷ ys)
            ]
              ≡ ok zs
            → IsSorted (w ∷ zs)
        go rec false q t = rw (← ok-injective t) (wx, (q, h.1))
        go rec true q t =
            let (ws, s, u) = call_returned (insert_sorted lt reverse x ys) _ t in
            rw (← ok-injective u) (h.0, rec ws (precedes_asymm reverse y x q) h.1 s)

    insert-IsSorted :
        (x : A) (ys zs : List A) → IsSorted ys → insert_sorted lt reverse x ys ≡ ok zs → IsSorted zs
    unfolding insert_sorted
    insert-IsSorted x [] zs h e = rw (← ok-injective e) tt
    insert-IsSorted x (y ∷ ys) zs h e =
        let (b, q, t) = call_returned (precedes lt reverse y x) _ e in go b q t
      where
        go :
            (b : Bool)
            → precedes lt reverse y x ≡ ok b
            → elim b [
              | true ↦ insert_sorted lt reverse x ys >>= λ ws. ok (y ∷ ws)
              | false ↦ ok (x ∷ y ∷ ys)
            ]
              ≡ ok zs
            → IsSorted zs
        go false q t = rw (← ok-injective t) (q, h)
        go true q t =
            let (ws, s, u) = call_returned (insert_sorted lt reverse x ys) _ t in
            rw (← ok-injective u) (insert_after y x ys ws (precedes_asymm reverse y x q) h s)

    pub list_sort-IsSorted : (xs zs : List A) → list_sort lt reverse xs ≡ ok zs → IsSorted zs
    unfolding list_sort
    list_sort-IsSorted [] zs h = rw (← ok-injective h) tt
    list_sort-IsSorted (x ∷ xs) zs h =
        let (ys, s, t) = call_returned (list_sort lt reverse xs) _ h in
        insert-IsSorted x ys zs (list_sort-IsSorted xs ys s) t

  module _ (p : A → Bool) (apart : (a b : A) → lt a b ≡ ok true → (p a && p b) ≡ false) where
    precedes_apart : (r : Bool) (a b : A) → precedes lt r a b ≡ ok true → (p a && p b) ≡ false
    precedes_apart true a b h = ground (arith, apart b a h)
    precedes_apart false a b h = apart a b h

    insert_stable :
        (x : A) (ys zs : List A)
        → insert_sorted lt reverse x ys ≡ ok zs
        → filter_by p zs ≡ filter_by p (x ∷ ys)
    unfolding insert_sorted
    insert_stable x [] zs h = rw (← ok-injective h) refl
    insert_stable x (y ∷ ys) zs h =
        let (b, q, t) = call_returned (precedes lt reverse y x) _ h in go (insert_stable x ys) b q t
      where
        go :
            ((ws : List A)
              → insert_sorted lt reverse x ys ≡ ok ws
              → filter_by p ws ≡ filter_by p (x ∷ ys))
            → (b : Bool) → precedes lt reverse y x ≡ ok b
            → elim b [
              | true ↦ insert_sorted lt reverse x ys >>= λ ws. ok (y ∷ ws)
              | false ↦ ok (x ∷ y ∷ ys)
            ]
              ≡ ok zs
            → filter_by p zs ≡ filter_by p (x ∷ y ∷ ys)
        go rec false q t = rw (← ok-injective t) refl
        go rec true q t =
            let (ws, s, u) = call_returned (insert_sorted lt reverse x ys) _ t in
            rw (← ok-injective u) (ground (arith, rec ws s, precedes_apart reverse y x q))

    -- Elements that pass a test which no two keys of different order pass keep their order.
    pub list_sort_stable :
        (xs zs : List A) → list_sort lt reverse xs ≡ ok zs → filter_by p zs ≡ filter_by p xs
    unfolding list_sort
    list_sort_stable [] zs h = rw (← ok-injective h) refl
    list_sort_stable (x ∷ xs) zs h =
        let (ys, s, t) = call_returned (list_sort lt reverse xs) _ h in
        insert_stable x ys zs t ∙ ground (arith, list_sort_stable xs ys s)

  module _ (p : A → Bool)
      (total : (a b : A) → p a ≡ true → p b ≡ true → (c : Bool) × (lt a b ≡ ok c)) where
    precedes_total :
        (r : Bool) (a b : A) → p a ≡ true → p b ≡ true → (c : Bool) × (precedes lt r a b ≡ ok c)
    precedes_total true a b h k = total b a k h
    precedes_total false a b h k = total a b h k

    insert_returns :
        (x : A) (ys : List A)
        → p x ≡ true
        → all_of p ys ≡ true
        → (zs : List A) × (insert_sorted lt reverse x ys ≡ ok zs) × (all_of p zs ≡ true)
    unfolding insert_sorted
    insert_returns x [] h k = (x ∷ [], refl, ground (arith, h))
    insert_returns x (y ∷ ys) h k =
        let here : p y ≡ true = ground arith in
        let (b, q) = precedes_total reverse y x here h in
        let (ws, s, all) = insert_returns x ys h (ground arith) in go b q ws s all
      where
        go :
            (b : Bool)
            → precedes lt reverse y x ≡ ok b
            → (ws : List A) → insert_sorted lt reverse x ys ≡ ok ws
            → all_of p ws ≡ true
            → (zs : List A) × (insert_sorted lt reverse x (y ∷ ys) ≡ ok zs) × (all_of p zs ≡ true)
        go true q ws s all = (y ∷ ws, rw (q, s) refl, ground (arith, k, all))
        go false q ws s all = (x ∷ y ∷ ys, rw (q) refl, ground (arith, h, k))

    -- The sort returns where all its elements can be compared.
    pub list_sort_returns :
        (xs : List A)
        → all_of p xs ≡ true
        → (zs : List A) × (list_sort lt reverse xs ≡ ok zs) × (all_of p zs ≡ true)
    unfolding list_sort
    list_sort_returns [] h = ([], refl, refl)
    list_sort_returns (x ∷ xs) h =
        let (ys, s, all) = list_sort_returns xs (ground arith) in
        let (zs, t, all') = insert_returns x ys (ground arith) all in (zs, rw (s) t, all')
