-- ===== src/Datatypes/SetValue.antt =====
-- engine/datatypes/containers.py, `SetValue`: a key set with its byte estimate.
use redis_like_data_storage.Prelude.{
  ℕ, String, Bool, true, false, not, Result, ok, ◌>>=◌, if◌then◌else◌, ◌≡◌, arith, sym, ap, ◌∙◌,
  Bool-cases, inl, inr, ite, str_discrete, Option-cases, subst, length, some, ltb, get_elem?,
  get_elem?-snoc,
}
use redis_like_data_storage.Prelude.Int.{ℤ, pos, ◌+ℤ◌, ◌-ℤ◌, +ℤ_assoc, int_laws}
use redis_like_data_storage.Dict
use redis_like_data_storage.Dict.{Dict}
use redis_like_data_storage.Dict.Laws.{get-remove}
use redis_like_data_storage.Dict.Total.{total, total-put_new, total-put_old, total-remove_old}
use redis_like_data_storage.KeySet
use redis_like_data_storage.KeySet.{KeySet}
use redis_like_data_storage.KeySet.Invariant
use redis_like_data_storage.KeySet.Invariant.{discard-cases}
use redis_like_data_storage.KeySet.Sets.{add_inserts, discard_removes}

-- `SET_ITEM_OVERHEAD` of sizing.py
abbrev pub set_item_overhead : ℕ
set_item_overhead = 60

pub record SetValue : Type 0 where
  pub members : KeySet
  pub nbytes : ℤ

abbrev pub init : SetValue
init = record { members = KeySet.empty; nbytes = pos 200 }

abbrev pub has_member : SetValue → String → Bool
has_member v member = KeySet.contains v.members member

module _ (str_size : String → ℤ) where
  abbrev pub member_size : String → ℤ
  member_size member = str_size member +ℤ pos set_item_overhead

  unfoldable pub add : SetValue → String → Bool × SetValue
  add v member = if KeySet.contains v.members member then (false, v) else (
    true,
    record { members = KeySet.add v.members member; nbytes = v.nbytes +ℤ member_size member },
  )

  unfoldable pub remove : SetValue → String → Result (Bool × SetValue)
  remove v member =
      if KeySet.contains v.members member
      then (do
        members ← KeySet.discard v.members member
        ok (true, record { members = members; nbytes = v.nbytes -ℤ member_size member }))
      else ok (false, v)

  -- The sum over the members, which are the keys of the index map.
  abbrev pub weight : KeySet → ℤ
  weight m = total (λ k i. member_size k) m.index

  pub record IsSized (v : SetValue) : Type 0 where
    pub valid : Invariant.IsValid v.members
    pub bytes : v.nbytes ≡ pos 200 +ℤ weight v.members

  weight-add :
      (m : KeySet) (key : String)
      → KeySet.contains m key ≡ false
      → weight (KeySet.add m key) ≡ weight m +ℤ member_size key
  unfolding KeySet.add KeySet.contains
  weight-add m key new = elim (Option-cases (Dict.get m.index key)) [
    | inl absent ↦
        rw (absent, KeySet.add)
          (total-put_new (λ k i. member_size k) m.index key (length m.items) absent)
    | inr (i, found) ↦ absurd (ground arith)
  ]

  weight-fill_hole :
      (m : KeySet) (key : String) (r : Invariant.Removal m key)
      → Invariant.IsValid m
      → weight (KeySet.fill_hole r.idx r.last r.items (Dict.remove m.index key))
        ≡ weight m -ℤ member_size key
  unfolding KeySet.fill_hole
  weight-fill_hole m key r v =
      let out = total-remove_old (λ k i. member_size k) m.index key r.idx r.found in
      elim (Bool-cases (ltb r.idx (length r.items))) [
        | inr end ↦ rw (end, KeySet.fill_hole) out
        | inl hole ↦
            let last_at : Dict.get m.index r.last ≡ some (length r.items) =
              (v.agree r.last (length r.items)).1 (
                ap (λ xs. get_elem? xs (length r.items)) r.split
                ∙ ground (arith, get_elem?-snoc r.items r.last (length r.items))) in
            let still : Dict.get (Dict.remove m.index key) r.last ≡ some (length r.items) =
              ground (arith, get-remove m.index key r.last v.is_dict, r.found, last_at) in
            rw (hole, KeySet.fill_hole)
              (total-put_old (λ k i. member_size k) (Dict.remove m.index key) r.last r.idx
                  (length r.items) still
                ∙ cancel (total (λ k i. member_size k) (Dict.remove m.index key))
                    (member_size r.last)
                ∙ out)
      ]
    where
      cancel : (a b : ℤ) → a -ℤ b +ℤ b ≡ a
      cancel a b = omega int_laws

  -- SADD keeps the estimate right, says whether the member is new, and brings in no other.
  pub sadd_total :
      (v : SetValue) (member : String)
      → IsSized v
      → IsSized (add v member).1
        × ((add v member).0 ≡ not (has_member v member))
        × ((k : String)
            → has_member (add v member).1 k ≡ ite (str_discrete member k) true (has_member v k))
  unfolding add
  sadd_total v member s = elim (Bool-cases (KeySet.contains v.members member)) [
    | inl held ↦ rw (held, add) (s, ground arith, λ k. ground arith)
    | inr new ↦
        let (valid, has', _) = add_inserts member s.valid in
        rw (new, add)
          (
            record {
              valid = valid;
              bytes =
                  ap (λ n. n +ℤ member_size member) s.bytes
                  ∙ +ℤ_assoc (pos 200) (weight v.members) (member_size member)
                  ∙ ap (λ n. pos 200 +ℤ n) (sym (weight-add v.members member new));
            },
            ground arith,
            has',
          )
  ]

  -- The outcome of SREM.
  abbrev pub IsTaken : SetValue → String → Bool → SetValue → Type 0
  IsTaken v member b v' =
      IsSized v'
      × (b ≡ has_member v member)
      × ((k : String) → has_member v' k ≡ ite (str_discrete member k) false (has_member v k))

  srem_held :
      (v : SetValue) (member : String)
      → IsSized v
      → KeySet.contains v.members member ≡ true
      → (m : KeySet) × (KeySet.discard v.members member ≡ ok m)
        × IsTaken v member true (record { members = m; nbytes = v.nbytes -ℤ member_size member })
  unfolding KeySet.contains
  srem_held v member s held = elim (discard-cases member s.valid) [
    | inl (absent, _) ↦ absurd (ground arith)
    | inr r ↦
        let m = KeySet.fill_hole r.idx r.last r.items (Dict.remove v.members.index member) in
        let (m', result, valid, has', _) = discard_removes member s.valid in
        let same : m' ≡ m = cc (result, r.result) in
        (
          m,
          r.result,
          (
            record {
              valid = subst Invariant.IsValid same valid;
              bytes =
                  ap (λ n. n -ℤ member_size member) s.bytes
                  ∙ out (weight v.members) (member_size member)
                  ∙ ap (λ n. pos 200 +ℤ n) (sym (weight-fill_hole v.members member r s.valid));
            },
            sym held,
            λ k. ap (λ x. KeySet.contains x k) (sym same) ∙ has' k,
          ),
        )
  ]
    where
      out : (t f : ℤ) → pos 200 +ℤ t -ℤ f ≡ pos 200 +ℤ (t -ℤ f)
      out t f = omega int_laws

  -- SREM never raises. It keeps the estimate right, says whether the member was there, and takes out
  -- no other.
  pub srem_total :
      (v : SetValue) (member : String)
      → IsSized v
      → (b : Bool) × (v' : SetValue) × (remove v member ≡ ok (b, v')) × IsTaken v member b v'
  unfolding remove
  srem_total v member s = elim (Bool-cases (KeySet.contains v.members member)) [
    | inl held ↦
        let (m, result, t) = srem_held v member s held in
        (
          true,
          record { members = m; nbytes = v.nbytes -ℤ member_size member },
          rw (held, remove, result),
          t,
        )
    | inr absent ↦ (false, v, rw (absent, remove), (s, sym absent, λ k. ground arith))
  ]
