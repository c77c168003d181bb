-- ===== src/Datatypes/HashValue.antt =====
-- engine/datatypes/containers.py, `HashValue`: a dict of texts with its byte estimate.
use redis_like_data_storage.Prelude.{
  ℕ, String, Option, none, some, [], Bool, true, false, not, ◌≡◌, arith, sym, ap, ◌∙◌, Option-cases,
  inl, inr, ite, str_discrete,
}
use redis_like_data_storage.Prelude.Int.{ℤ, pos, ◌+ℤ◌, ◌-ℤ◌, +ℤ_assoc, int_laws}
use redis_like_data_storage.Dict
use redis_like_data_storage.Dict.{Dict, IsDict, has}
use redis_like_data_storage.Dict.Laws.{get-put, get-remove, put-IsDict, remove-IsDict}
use redis_like_data_storage.Dict.Total.{total, total-put_new, total-put_old, total-remove_old}

-- `HASH_ITEM_OVERHEAD` of sizing.py
abbrev pub hash_item_overhead : ℕ
hash_item_overhead = 50

pub record HashValue : Type 0 where
  pub fields : Dict String
  pub nbytes : ℤ

abbrev pub init : HashValue
init = record { fields = []; nbytes = pos 200 }

unfoldable pub get : HashValue → String → Option String
get v field = Dict.get v.fields field

module _ (str_size : String → ℤ) where
  abbrev pub field_size : String → String → ℤ
  field_size field value = str_size field +ℤ str_size value +ℤ pos hash_item_overhead

  -- `set`: whether the field is new.
  unfoldable pub set : HashValue → String → String → Bool × HashValue
  set v field value =
      let fields = Dict.put v.fields field value in
      elim (Dict.get v.fields field) [
        | none ↦ (true, record { fields = fields; nbytes = v.nbytes +ℤ field_size field value })
        | some old ↦ (
          false,
          record { fields = fields; nbytes = v.nbytes +ℤ (str_size value -ℤ str_size old) },
        )
      ]

  unfoldable pub delete : HashValue → String → Bool × HashValue
  delete v field = elim (Dict.get v.fields field) [
    | none ↦ (false, v)
    | some old ↦ (
      true,
      record { fields = Dict.remove v.fields field; nbytes = v.nbytes -ℤ field_size field old },
    )
  ]

  -- The estimate is that of an empty container and of the fields.
  pub record IsSized (v : HashValue) : Type 0 where
    pub is_dict : IsDict v.fields
    pub bytes : v.nbytes ≡ pos 200 +ℤ total field_size v.fields

  -- HSET keeps the estimate right, says whether the field is new, gives it the value, and changes no
  -- other field.
  pub hset_total :
      (v : HashValue) (field value : String)
      → IsSized v
      → IsSized (set v field value).1
        × ((set v field value).0 ≡ not (has v.fields field))
        × ((k : String)
            → get (set v field value).1 k ≡ ite (str_discrete field k) (some value) (get v k))
  unfolding set get has
  hset_total v field value s = elim (Option-cases (Dict.get v.fields field)) [
    | inl absent ↦
        rw (absent, set)
          (
            record {
              is_dict = put-IsDict v.fields field value s.is_dict;
              bytes =
                  ap (λ n. n +ℤ field_size field value) s.bytes
                  ∙ +ℤ_assoc (pos 200) (total field_size v.fields) (field_size field value)
                  ∙ ap (λ n. pos 200 +ℤ n)
                      (sym (total-put_new field_size v.fields field value absent));
            },
            unfold has in ground arith,
            λ k. get-put v.fields field k value,
          )
    | inr (old, found) ↦
        rw (found, set)
          (
            record {
              is_dict = put-IsDict v.fields field value s.is_dict;
              bytes =
                  ap (λ n. n +ℤ (str_size value -ℤ str_size old)) s.bytes
                  ∙ swap (total field_size v.fields) (str_size field) (str_size value)
                      (str_size old)
                  ∙ ap (λ n. pos 200 +ℤ n)
                      (sym (total-put_old field_size v.fields field value old found));
            },
            unfold has in ground arith,
            λ k. get-put v.fields field k value,
          )
  ]
    where
      swap :
          (t f a b : ℤ)
          → pos 200 +ℤ t +ℤ (a -ℤ b) ≡ pos 200 +ℤ (t -ℤ (f +ℤ b +ℤ pos 50) +ℤ (f +ℤ a +ℤ pos 50))
      swap t f a b = omega int_laws

  -- HDEL keeps the estimate right, says whether the field was there, takes it out, and changes no other
  -- field.
  pub hdel_total :
      (v : HashValue) (field : String)
      → IsSized v
      → IsSized (delete v field).1
        × ((delete v field).0 ≡ has v.fields field)
        × ((k : String) → get (delete v field).1 k ≡ ite (str_discrete field k) none (get v k))
  unfolding delete get has
  hdel_total v field s = elim (Option-cases (Dict.get v.fields field)) [
    | inl absent ↦ rw (absent, delete) (s, unfold has in ground arith, λ k. ground arith)
    | inr (old, found) ↦
        rw (found, delete)
          (
            record {
              is_dict = remove-IsDict v.fields field s.is_dict;
              bytes =
                  ap (λ n. n -ℤ field_size field old) s.bytes
                  ∙ out (total field_size v.fields) (field_size field old)
                  ∙ ap (λ n. pos 200 +ℤ n)
                      (sym (total-remove_old field_size v.fields field old found));
            },
            unfold has in ground arith,
            λ k. get-remove v.fields field k s.is_dict,
          )
  ]
    where
      out : (t f : ℤ) → pos 200 +ℤ t -ℤ f ≡ pos 200 +ℤ (t -ℤ f)
      out t f = omega int_laws
