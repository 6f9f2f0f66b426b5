-- ===== src/Tags/Members.antt =====
-- The fields of a struct by their keys, and the round trip of a whole struct.
use text.Mathlib.Text.{◌==◌ as str_eq}
use text.Mathlib.TextEquality.{eq_iff}
use text.Mathlib.TextPositions.{eq_refl}
use arigo.Base.{
  ◌≡◌, refl, sym, ap, ◌∙◌, String, Bool, true, false, ◌&&◌, not, Option, none, some, List, [], ◌∷◌,
  All, All-map, if◌then◌else◌, arith, Bool-cases, inl, inr,
}
use arigo.Json.{Decodes}
use arigo.Tags.{
  stored, Coding, Member, put_stored, exact_member, find_member, decode_fields, store_struct,
  members_json, struct_json,
}

module _ {S : Type 0} where
  pub never_omits : (copy : S → S → S) (s t : S) → false ≡ true → copy s t ≡ t
  never_omits copy s t h = cc

module _ {S A : Type 0} where
  pub store-put :
      (c : Coding A) (get : S → A) (put : A → S → S) (s t : S)
      → c.valid (get s) ≡ true
      → put_stored (λ a. put a t) (c.store (c.encode (get s)) (get t)) ≡ stored (put (get s) t)
  store-put c get put s t h = ap (put_stored (λ a. put a t)) (c.store-encode (get s) (get t) h)

  -- A field with its key, the coding of its type, and how it is read and written.
  abbrev pub member : String → Coding A → (S → A) → (A → S → S) → Member S
  member key c get put = record {
    key = key;
    omits = λ s. false;
    valid = λ s. c.valid (get s);
    member_json = λ s. c.encode (get s);
    store = λ j s. put_stored (λ a. put a s) (c.store j (get s));
    copy = λ s t. put (get s) t;
    store-json = λ s t h o. store-put c get put s t h;
    copy-omits = never_omits (λ s t. put (get s) t);
  }

  module _ (empty : A → Bool) (key : String) (c : Coding A) (get : S → A) (put : A → S → S)
      (put-get : (t : S) → put (get t) t ≡ t) where
    abbrev copy_sent : S → S → S
    copy_sent s t = put (if empty (get s) then get t else get s) t

    pub store-copy_sent :
        (s t : S)
        → c.valid (get s) ≡ true
        → empty (get s) ≡ false
        → put_stored (λ a. put a t) (c.store (c.encode (get s)) (get t)) ≡ stored (copy_sent s t)
    store-copy_sent s t h o = rw o (store-put c get put s t h)

    pub copy_sent-omits : (s t : S) → empty (get s) ≡ true → copy_sent s t ≡ t
    copy_sent-omits s t o = rw o (put-get t)

    -- The same with omitempty, of the values that are empty.
    abbrev pub omitted : Member S
    omitted = record {
      key = key;
      omits = λ s. empty (get s);
      valid = λ s. c.valid (get s);
      member_json = λ s. c.encode (get s);
      store = λ j s. put_stored (λ a. put a s) (c.store j (get s));
      copy = copy_sent;
      store-json = store-copy_sent;
      copy-omits = copy_sent-omits;
    }

module _ {S : Type 0} where
  abbrev is_some : Option (Member S) → Bool
  is_some none = false
  is_some (some m) = true

  abbrev pub distinct : List (Member S) → Bool
  distinct [] = true
  distinct (m ∷ ms) = not (is_some (exact_member m.key ms)) && distinct ms

  -- What is written of `s` and read into `t` makes of `t`.
  abbrev pub copies : List (Member S) → S → S → S
  copies [] s t = t
  copies (m ∷ ms) s t = copies ms s (m.copy s t)

  abbrev pub valid_members : List (Member S) → S → Bool
  valid_members [] s = true
  valid_members (m ∷ ms) s = m.valid s && valid_members ms s

  exact_member-All :
      (ms : List (Member S)) → distinct ms ≡ true → All (λ m. exact_member m.key ms ≡ some m) ms
  unfolding exact_member
  exact_member-All [] h = tt
  exact_member-All (m ∷ ms) h = (
    rw (eq_refl m.key) refl,
    All-map (λ k. exact_member k.key ms ≡ some k) (λ k. exact_member k.key (m ∷ ms) ≡ some k)
        (λ k e. elim (Bool-cases (str_eq m.key k.key)) [
          | inl q ↦
              absurd
                (apart k (ap (λ (x : String). exact_member x ms) ((eq_iff m.key k.key).0 q) ∙ e))
          | inr q ↦ rw q e
        ])
        ms (exact_member-All ms (ground (arith, h))),
  )
    where
      apart : (k : Member S) → exact_member m.key ms ≡ some k → ⊥
      apart k e = ground (arith, h, e)

  find_member-All :
      (ms : List (Member S)) → distinct ms ≡ true → All (λ m. find_member m.key ms ≡ some m) ms
  unfolding find_member
  find_member-All ms h =
      All-map (λ m. exact_member m.key ms ≡ some m) (λ m. find_member m.key ms ≡ some m)
        (λ m e. rw e refl) ms (exact_member-All ms h)

  decode_fields-members_json :
      (all rest : List (Member S)) (s t : S)
      → All (λ m. find_member m.key all ≡ some m) rest
      → valid_members rest s ≡ true
      → decode_fields all (members_json rest s) t ≡ stored (copies rest s t)
  unfolding decode_fields members_json
  decode_fields-members_json all [] s t h v = refl
  decode_fields-members_json all (m ∷ ms) s t h v =
      let later : valid_members ms s ≡ true = ground (arith, v) in
      let this : m.valid s ≡ true = ground (arith, v) in
      elim (Bool-cases (m.omits s)) [
        | inl o ↦
            rw (o, members_json)
              (decode_fields-members_json all ms s t h.1 later
                ∙ ap (λ (x : S). stored (copies ms s x)) (sym (m.copy-omits s t o)))
        | inr o ↦
            rw (o, members_json)
              (rw (h.0, decode_fields)
                (rw (m.store-json s t this o)
                  (decode_fields-members_json all ms s (m.copy s t) h.1 later)))
      ]

  pub store_struct-struct_json :
      (ms : List (Member S)) (s t : S)
      → distinct ms ≡ true
      → valid_members ms s ≡ true
      → store_struct ms (struct_json ms s) t ≡ stored (copies ms s t)
  unfolding store_struct struct_json
  store_struct-struct_json ms s t h v =
      decode_fields-members_json ms ms s t (find_member-All ms h) v

  -- The coding of a struct that writes all of its fields.
  module _ (ms : List (Member S)) (zero_value : S) (apart : distinct ms ≡ true)
      (all : (s t : S) → copies ms s t ≡ s) where
    pub struct-store-encode :
        (s old : S) → valid_members ms s ≡ true → store_struct ms (struct_json ms s) old ≡ stored s
    struct-store-encode s old v =
        store_struct-struct_json ms s old apart v ∙ ap (λ (x : S). stored x) (all s old)

    abbrev pub struct : Coding S
    struct = record {
      zero_value = zero_value;
      valid = valid_members ms;
      encode = struct_json ms;
      store = store_struct ms;
      store-encode = struct-store-encode;
    }

-- json.Unmarshal(raw, &x) for a type that has a coding.
module _ {A : Type 0} where
  abbrev pub decodes : Coding A → Decodes A
  decodes c = record {
    zero_value = c.zero_value;
    unmarshal = λ j a. let (a', e, stop) = c.store j a in (a', e);
    stops = λ j a. (c.store j a).2;
  }
