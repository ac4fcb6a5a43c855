-- ===== src/Xrce/Cdr/Rules.antt =====
-- How what the steps write and read composes along the control flow of xrce_types.c.
use micro_xrce_dds_client.Prelude.{
  ℕ, ◌≤◌, ◌≡◌, refl, sym, ◌∙◌, ap, Bool, true, false, Option, none, some, List, [], ◌∷◌, ◌++◌,
  append_assoc, append-nil, All, length, ≤→ltb, if◌then◌else◌,
}
use mathlib.Core.Path.{subst}
use micro_xrce_dds_client.Xrce.Cdr.{
  Step, MicroCdr, pure, ◌>>=◌, ◌>>◌, if_ok, when_ok, serialize_each, deserialize_each,
  serialize_sequence, deserialize_sequence, read_sequence, serialize_optional, deserialize_optional,
}
use micro_xrce_dds_client.Xrce.Cdr.Laws.{
  Item, View, Writes, Reads, Codec, Laws, Holds, layout_optional, layout_each, layout_sequence,
}

pure_lem : {B A : Type 0} (a : A) (b : B) → pure a b ≡ (true, a, b)
unfolding pure
pure_lem a b = refl

when_ok-true :
    {B : Type 0} (m : Step B (Unit {0})) (k : Step B (Unit {0})) {b b1 b2 : B}
    → m b ≡ (true, tt, b1)
    → k b1 ≡ (true, tt, b2)
    → when_ok m k b ≡ (true, tt, b2)
unfolding when_ok
when_ok-true m k p q = rw (p, q)

module _ {B A C : Type 0} where
  >>=-true :
      (m : Step B A) (f : A → Step B C) {b b1 b2 : B} {a : A} {c : C}
      → m b ≡ (true, a, b1)
      → f a b1 ≡ (true, c, b2)
      → (m >>= f) b ≡ (true, c, b2)
  unfolding ◌>>=◌
  >>=-true m f p q = rw (p, q)

  >>-true :
      (m : Step B A) (k : Step B C) {b b1 b2 : B} {a : A} {c : C}
      → m b ≡ (true, a, b1)
      → k b1 ≡ (true, c, b2)
      → (m >> k) b ≡ (true, c, b2)
  unfolding ◌>>◌
  >>-true m k p q = rw (p, q)

  if_ok-true :
      (m : Step B A) (d : A → C) (f : A → Step B C) {b b1 b2 : B} {a : A} {c : C}
      → m b ≡ (true, a, b1)
      → f a b1 ≡ (true, c, b2)
      → if_ok m d f b ≡ (true, c, b2)
  unfolding if_ok
  if_ok-true m d f p q = rw (p, q)

module _ {B : Type 0} {v : View B} where
  Writes-pure : Writes v (pure tt) []
  Writes-pure = record {
    run = λ b more fits. (b, pure_lem tt b, sym (append-nil (v.written b)), fits);
  }

  Writes->> :
      {m k : Step B (Unit {0})} {xs ys : List Item}
      → Writes v m xs
      → Writes v k ys
      → Writes v (m >> k) (xs ++ ys)
  Writes->> {m} {k} {xs} {ys} p q = record {
    run = λ b more fits.
        let (b1, e1, w1, f1) =
          p.run b (ys ++ more) (subst (v.Fits b) (append_assoc xs ys more) fits) in
        let (b2, e2, w2, f2) = q.run b1 more f1 in
        (b2, >>-true m k e1 e2, w2 ∙ rw (w1, append_assoc), f2);
  }

  Writes-when_ok :
      {m k : Step B (Unit {0})} {xs ys : List Item}
      → Writes v m xs
      → Writes v k ys
      → Writes v (when_ok m k) (xs ++ ys)
  Writes-when_ok {m} {k} {xs} {ys} p q = record {
    run = λ b more fits.
        let (b1, e1, w1, f1) =
          p.run b (ys ++ more) (subst (v.Fits b) (append_assoc xs ys more) fits) in
        let (b2, e2, w2, f2) = q.run b1 more f1 in
        (b2, when_ok-true m k e1 e2, w2 ∙ rw (w1, append_assoc), f2);
  }

  Reads-pure : {A : Type 0} {a : A} → Reads v (pure a) [] a
  Reads-pure {a} = record { run = λ b more e. (b, pure_lem a b, e) }

  Reads->>= :
      {A C : Type 0} {m : Step B A} {xs ys : List Item} {a : A} {c : C} (f : A → Step B C)
      → Reads v m xs a
      → Reads v (f a) ys c
      → Reads v (m >>= f) (xs ++ ys) c
  Reads->>= {m} {xs} {ys} f p q = record {
    run = λ b more e.
        let (b1, e1, u1) = p.run b (ys ++ more) (e ∙ append_assoc xs ys more) in
        let (b2, e2, u2) = q.run b1 more u1 in (b2, >>=-true m f e1 e2, u2);
  }

  Reads-last :
      {A C : Type 0} {m : Step B A} {xs : List Item} {a : A} (f : A → C)
      → Reads v m xs a
      → Reads v (m >>= λ x. pure (f x)) xs (f a)
  Reads-last {m} {a} f p = record {
    run = λ b more e.
        let (b1, e1, u1) = p.run b more e in (b1, >>=-true m _ e1 (pure_lem (f a) b1), u1);
  }

  Reads-if_ok :
      {A C : Type 0} {m : Step B A} {xs ys : List Item} {a : A} {c : C} (d : A → C)
      (f : A → Step B C)
      → Reads v m xs a
      → Reads v (f a) ys c
      → Reads v (if_ok m d f) (xs ++ ys) c
  Reads-if_ok {m} {xs} {ys} d f p q = record {
    run = λ b more e.
        let (b1, e1, u1) = p.run b (ys ++ more) (e ∙ append_assoc xs ys more) in
        let (b2, e2, u2) = q.run b1 more u1 in (b2, if_ok-true m d f e1 e2, u2);
  }

module _ {B : Type 0} {v : View B} where
  pub Codec-pure : {A : Type 0} {a : A} → Codec v (pure tt) (pure a) [] a
  Codec-pure = record { writes = Writes-pure; reads = Reads-pure }

  pub Codec->> :
      {A C : Type 0} {w k : Step B (Unit {0})} {m : Step B A} {xs ys : List Item} {a : A} {c : C}
      (f : A → Step B C)
      → Codec v w m xs a
      → Codec v k (f a) ys c
      → Codec v (w >> k) (m >>= f) (xs ++ ys) c
  Codec->> f p q = record {
    writes = Writes->> p.writes q.writes;
    reads = Reads->>= f p.reads q.reads;
  }

  pub Codec-last :
      {A C : Type 0} {w : Step B (Unit {0})} {m : Step B A} {xs : List Item} {a : A} (f : A → C)
      → Codec v w m xs a
      → Codec v w (m >>= λ x. pure (f x)) xs (f a)
  Codec-last f p = record { writes = p.writes; reads = Reads-last f p.reads }

  -- `if (ret) { ... }` on both sides.
  pub Codec-case :
      {A C : Type 0} {w k : Step B (Unit {0})} {m : Step B A} {xs ys : List Item} {a : A} {c : C}
      (d : A → C) (f : A → Step B C)
      → Codec v w m xs a
      → Codec v k (f a) ys c
      → Codec v (when_ok w k) (if_ok m d f) (xs ++ ys) c
  Codec-case d f p q = record {
    writes = Writes-when_ok p.writes q.writes;
    reads = Reads-if_ok d f p.reads q.reads;
  }

  -- A case that the tag does not select.
  pub Codec-else :
      {A : Type 0} {w : Step B (Unit {0})} {k : Step B A} {items : List Item} {a : A} (c : Bool)
      (m : Step B A)
      → c ≡ false
      → Codec v w k items a
      → Codec v w (if c then m else k) items a
  Codec-else {w} {k} {items} {a} c m e r =
      subst (λ t. Codec v w (if t then m else k) items a) (sym e) r

  -- A buffer that starts empty and has room for the items holds them after the write.
  pub Codec-written :
      {A : Type 0} {w : Step B (Unit {0})} {m : Step B A} {items : List Item} {a : A}
      → Codec v w m items a
      → (b : B) → v.Fits b items
      → v.written b ≡ []
      → ((w b).0 ≡ true) × (v.written (w b).2 ≡ items)
  Codec-written {w} {items} c b fits empty =
      let (b1, e1, w1, _) = c.writes.run b [] (subst (v.Fits b) (sym (append-nil items)) fits) in
      (ap (λ t. t.0) e1, ap (λ t. v.written t.2) e1 ∙ (w1 ∙ ap (λ t. t ++ items) empty))

  -- A buffer that still has to give what was written gives the value.
  pub Codec-round_trip :
      {A : Type 0} {w : Step B (Unit {0})} {m : Step B A} {items : List Item} {a : A}
      → Codec v w m items a
      → (b : B) → v.Fits b items
      → v.written b ≡ []
      → (b' : B) → v.unread b' ≡ v.written (w b).2
      → ((w b).0 ≡ true) × (rest : B) × (m b' ≡ (true, a, rest)) × (v.unread rest ≡ [])
  Codec-round_trip {items} c b fits empty b' e =
      let (ok, held) = Codec-written c b fits empty in
      let (rest, e2, u2) = c.reads.run b' [] (e ∙ (held ∙ sym (append-nil items))) in
      (ok, rest, e2, u2)

module _ {B : Type 0} ⦃cdr : MicroCdr B⦄ ⦃laws : Laws cdr⦄ where
  pub optional-Codec :
      {A : Type 0} {P : A → Type 0} (serialize : A → Step B (Unit {0})) (deserialize : Step B A)
      (layout : A → List Item) (x : Option A)
      → Holds P x
      → ((a : A) → P a → Codec laws.view (serialize a) deserialize (layout a) a)
      → Codec laws.view
          (serialize_optional serialize x)
          (deserialize_optional deserialize)
          (layout_optional layout x)
          x
  unfolding serialize_optional deserialize_optional
  optional-Codec serialize deserialize layout none h c =
      Codec->> _ (laws.codec_bool false) Codec-pure
  optional-Codec serialize deserialize layout (some a) h c =
      Codec->> _ (laws.codec_bool true) (Codec-last _ (c a h))

  each-Codec :
      {A : Type 0} {P : A → Type 0} (serialize : A → Step B (Unit {0})) (deserialize : Step B A)
      (layout : A → List Item) (xs : List A)
      → All P xs
      → ((a : A) → P a → Codec laws.view (serialize a) deserialize (layout a) a)
      → Codec laws.view
          (serialize_each serialize xs)
          (deserialize_each deserialize (length xs))
          (layout_each layout xs)
          xs
  unfolding serialize_each deserialize_each
  each-Codec serialize deserialize layout [] ps c = Codec-pure
  each-Codec serialize deserialize layout (x ∷ xs) (p, ps) c =
      Codec-case _ _ (c x p) (Codec-last _ (each-Codec serialize deserialize layout xs ps c))

  deserialize_sequence-true :
      {A : Type 0} (capacity : ℕ) (deserialize : Step B A) {b b1 b2 : B} {n : ℕ} {xs : List A}
      → n ≤ capacity
      → cdr.deserialize_uint32 b ≡ (true, n, b1)
      → deserialize_each deserialize n b1 ≡ (true, xs, b2)
      → deserialize_sequence capacity deserialize b ≡ (true, xs, b2)
  unfolding deserialize_sequence read_sequence
  deserialize_sequence-true capacity deserialize {n} h p q = rw (p, q, ≤→ltb n capacity h)

  serialize_sequence-Writes :
      {A : Type 0} (serialize : A → Step B (Unit {0})) (layout : A → List Item) (xs : List A)
      → Writes laws.view (serialize_each serialize xs) (layout_each layout xs)
      → Writes laws.view (serialize_sequence serialize xs) (layout_sequence layout xs)
  unfolding serialize_sequence
  serialize_sequence-Writes serialize layout xs w =
      Writes-when_ok (laws.codec_uint32 (length xs)).writes w

  pub sequence-Codec :
      {A : Type 0} {P : A → Type 0} (capacity : ℕ) (serialize : A → Step B (Unit {0}))
      (deserialize : Step B A) (layout : A → List Item) (xs : List A)
      → length xs ≤ capacity
      → All P xs
      → ((a : A) → P a → Codec laws.view (serialize a) deserialize (layout a) a)
      → Codec laws.view
          (serialize_sequence serialize xs)
          (deserialize_sequence capacity deserialize)
          (layout_sequence layout xs)
          xs
  sequence-Codec capacity serialize deserialize layout xs h ps c =
      let each = each-Codec serialize deserialize layout xs ps c in
      record {
        writes = serialize_sequence-Writes serialize layout xs each.writes;
        reads = record {
          run = λ b more e.
              let (b1, e1, u1) =
                (laws.codec_uint32 (length xs)).reads.run b (layout_each layout xs ++ more) e in
              let (b2, e2, u2) = each.reads.run b1 more u1 in
              (b2, deserialize_sequence-true capacity deserialize h e1 e2, u2);
        };
      }
