-- ===== src/Tags/Documented.antt =====
-- What encoding/json reads into a struct of this repository from an object that is described apart from
-- its tags: by a second list of members, with keys of its own.
use arigo.Base.{
  none, map, ◌≡◌, refl, sym, ap, ◌∙◌, String, Bool, true, false, Option, some, List, [], ◌∷◌,
  if◌then◌else◌, arith, Bool-cases, inl, inr,
}
use arigo.Json.{Json, GoError, list_of-items}
use arigo.Tags.Codings.{slice, first_or_zero, rest_of, store_slice, store_items}
use arigo.Tags.{
  stored, Coding, Member, put_stored, find_member, decode_fields, store_struct, members_json,
  struct_json,
}
use arigo.Tags.Members.{copies, valid_members}

module _ {S : Type 0} where
  -- The fields that the keys of a description find, in the order of the description.
  abbrev pub found_in : List (Member S) → List (Member S) → List (Member S)
  found_in ms [] = []
  found_in ms (m ∷ docs) = elim (find_member m.key ms) [
    | none ↦ found_in ms docs
    | some k ↦ k ∷ found_in ms docs
  ]

  -- Each key of the description finds its field, which reads the same.
  abbrev pub ReadBy : List (Member S) → List (Member S) → List (Member S) → Type 0
  ReadBy ms ks docs =
      (map (λ m. find_member m.key ms) docs ≡ map (λ k. some k) ks)
      × (map (λ k. k.store) ks ≡ map (λ m. m.store) docs)

  abbrev pub IsRead : List (Member S) → List (Member S) → Type 0
  IsRead ms docs = ReadBy ms (found_in ms docs) docs

  decode-documented :
      (ms ks docs : List (Member S)) (s t : S)
      → ReadBy ms ks docs
      → valid_members docs s ≡ true
      → decode_fields ms (members_json docs s) t ≡ stored (copies docs s t)
  unfolding decode_fields members_json
  decode-documented ms [] [] s t h v = refl
  decode-documented ms [] (m ∷ docs) s t (found, same) v = cc
  decode-documented ms (k ∷ ks) [] s t (found, same) v = cc
  decode-documented ms (k ∷ ks) (m ∷ docs) s t (all_found, all_same) v =
      let found : find_member m.key ms ≡ some k = cc in
      let same : k.store ≡ m.store = cc in
      let h : ReadBy ms ks docs = (cc, cc) in
      let later : valid_members docs s ≡ true = ground (arith, v) in
      let this : m.valid s ≡ true = ground (arith, v) in
      elim (Bool-cases (m.omits s)) [
        | inl o ↦
            rw (o, members_json)
              (decode-documented ms ks docs s t h later
                ∙ ap (λ (x : S). stored (copies docs s x)) (sym (m.copy-omits s t o)))
        | inr o ↦
            rw (o, members_json)
              (rw (found, decode_fields)
                (rw (ap (λ f. f (m.member_json s) t) same ∙ m.store-json s t this o)
                  (decode-documented ms ks docs s (m.copy s t) h later)))
      ]

  -- The fields that are there are read, and the others stay as they were.
  pub store_struct-documented :
      (ms docs : List (Member S)) (s t : S)
      → IsRead ms docs
      → valid_members docs s ≡ true
      → store_struct ms (struct_json docs s) t ≡ stored (copies docs s t)
  unfolding store_struct struct_json
  store_struct-documented ms docs s t h v = decode-documented ms (found_in ms docs) docs s t h v

  -- A struct of which everything is there.
  module _ (ms docs : List (Member S)) (zero_value : S) (reads : IsRead ms docs)
      (all : (s t : S) → copies docs s t ≡ s) where
    pub documented-store-encode :
        (s old : S)
        → valid_members docs s ≡ true
        → store_struct ms (struct_json docs s) old ≡ stored s
    documented-store-encode s old v =
        store_struct-documented ms docs s old reads v ∙ ap (λ (x : S). stored x) (all s old)

    abbrev pub documented : Coding S
    documented = record {
      zero_value = zero_value;
      valid = valid_members docs;
      encode = struct_json docs;
      store = store_struct ms;
      store-encode = documented-store-encode;
    }

-- A slice whose entries are described, read by the coding `c`.
module _ {A : Type 0} (c doc : Coding A) (same : c.store ≡ doc.store) where
  documented_items :
      (xs olds : List A)
      → (slice doc).valid xs ≡ true
      → store_items c (map doc.encode xs) olds ≡ stored xs
  unfolding store_items
  documented_items [] olds h = refl
  documented_items (x ∷ xs) olds h =
      let hx : doc.valid x ≡ true = ground (arith, h) in
      let hxs : (slice doc).valid xs ≡ true = ground (arith, h) in
      rw
        (ap (λ f. f (doc.encode x) (first_or_zero c olds)) same
          ∙ doc.store-encode x (first_or_zero c olds) hx)
        (ap (λ (r : List A × Option GoError × Bool). (x ∷ r.0, r.1, r.2))
          (documented_items xs (rest_of c olds) hxs))

  pub documented_slice-encode :
      (xs olds : List A)
      → (slice doc).valid xs ≡ true
      → store_slice c ((slice doc).encode xs) olds ≡ stored xs
  unfolding store_slice
  documented_slice-encode xs olds h =
      ap (λ (js : List Json). store_items c js olds) (list_of-items (map doc.encode xs))
      ∙ documented_items xs olds h

  abbrev pub documented_slice : Coding (List A)
  documented_slice = record {
    zero_value = [];
    valid = (slice doc).valid;
    encode = (slice doc).encode;
    store = store_slice c;
    store-encode = documented_slice-encode;
  }

-- A field that holds a struct of which not everything is there.
module _ {S A : Type 0} (here : Bool) (key : String) (ms docs : List (Member A))
    (reads : IsRead ms docs) (get : S → A) (put : A → S → S)
    (put-get : (t : S) → put (get t) t ≡ t) where
  abbrev pub copy_part : S → S → S
  copy_part s t = put (if here then copies docs (get s) (get t) else get t) t

  pub part-store-json :
      (s t : S)
      → valid_members docs (get s) ≡ true
      → (if here then false else true) ≡ false
      → put_stored (λ a. put a t) (store_struct ms (struct_json docs (get s)) (get t))
        ≡ stored (copy_part s t)
  part-store-json s t v o = elim (Bool-cases here) [
    | inl h ↦
        rw h
          (ap (put_stored (λ a. put a t)) (store_struct-documented ms docs (get s) (get t) reads v))
    | inr h ↦ absurd (let hidden = o in ground (arith, h, o))
  ]

  pub part-copy-omits : (s t : S) → (if here then false else true) ≡ true → copy_part s t ≡ t
  part-copy-omits s t o = elim (Bool-cases here) [
    | inl h ↦ absurd (ground (arith, h, o))
    | inr h ↦ rw h (put-get t)
  ]

  abbrev pub part : Member S
  part = record {
    key = key;
    omits = λ s. if here then false else true;
    valid = λ s. valid_members docs (get s);
    member_json = λ s. struct_json docs (get s);
    store = λ j s. put_stored (λ a. put a s) (store_struct ms j (get s));
    copy = copy_part;
    store-json = part-store-json;
    copy-omits = part-copy-omits;
  }
