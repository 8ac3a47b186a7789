-- ===== src/Packets/Options/Unpack.antt =====
-- What the options of a packet hold after each operation, and after a trip over the wire.
use knotfreeiot.Base.{
  ℕ, ◌+◌, ◌%◌, ◌≡◌, ◌≢◌, refl, sym, ◌∙◌, inl, inr, Bytes, List, [], ◌∷◌, ◌++◌, Bool, true, false,
  Option, none, some, length, append-nil, ◌==◌, Bool-cases, if◌then◌else◌, arith,
}
use knotfreeiot.Base.Keys.{TreeMap, bytes_eq, bytes_beq, bytes_beq_iff, lookup, Distinct}
use knotfreeiot.Packets.Options.{
  flat, option_size, get_option, get_option_keys, delete_option, set_option, copy_entries, created,
  copy_options, unpack_loop, unpack_options, pack_options,
}

abbrev found : Option Bytes → Bytes × Bool → Bytes × Bool
found none other = other
found (some v) other = (v, true)

flat-nil : (es : List (Bytes × Bytes)) → length es ≡ 0 → flat es ≡ []
flat-nil [] h = refl
flat-nil (e ∷ es) h = absurd (omega arith)

module _ {T : Type 0} (m : TreeMap T Bytes Bytes) where
  -- A written option is read back, and the others stay as they were.
  pub get_option-set_option :
      (k j v : Bytes) (o : Option T)
      → get_option m (set_option m k v o) j
        ≡ (if bytes_beq k j then (v, true) else get_option m o j)
  unfolding get_option set_option
  get_option-set_option k j v none = ground (arith, m.get_put k j v m.empty, m.get_empty j)
  get_option-set_option k j v (some t) = ground (arith, m.get_put k j v t)

  pub get_option-delete_option :
      (k j : Bytes) (o : Option T)
      → get_option m (delete_option m k o) j
        ≡ (if bytes_beq k j then ([], false) else get_option m o j)
  unfolding get_option delete_option
  get_option-delete_option k j none = ground arith
  get_option-delete_option k j (some t) = ground (arith, m.get_remove k j t)

  get-copy_entries :
      (es : List (Bytes × Bytes)) (j : Bytes) (o : Option T)
      → Distinct es
      → get_option m (copy_entries m es o) j ≡ found (lookup j es) (get_option m o j)
  unfolding copy_entries
  get-copy_entries [] j o h = refl
  get-copy_entries ((k, v) ∷ es) j o h = ground (
    arith,
    get-copy_entries es j (set_option m k v o),
    get_option-set_option k j v o,
    bytes_beq_iff k j,
  )

  -- One pair of strings: an empty key is passed over.
  unpack_pair :
      (k v key : Bytes) (args : List Bytes) (i : ℕ) (o : Option T)
      → i % 2 ≡ 0
      → unpack_loop m (k ∷ v ∷ args) i key o
        ≡ unpack_loop m args (i + 1 + 1) v (if bytes_beq k [] then o else set_option m k v o)
  unfolding unpack_loop
  unpack_pair k v key args i o h =
      let even : (i % 2 == 1) ≡ false = ground arith in
      let odd : ((i + 1) % 2 == 1) ≡ true = ground arith in
      rw even (rw odd (elim (Bool-cases (bytes_beq k [])) [ inl e ↦ rw e | inr e ↦ rw e ]))

  unpack-flat :
      (es : List (Bytes × Bytes)) (i : ℕ) (key j : Bytes) (o : Option T)
      → i % 2 ≡ 0
      → j ≢ []
      → Distinct es
      → get_option m (unpack_loop m (flat es) i key o) j ≡ found (lookup j es) (get_option m o j)
  unpack-flat [] i key j o h ne d = unfold unpack_loop in refl
  unpack-flat ((k, v) ∷ es) i key j o h ne d =
      let o' = if bytes_beq k [] then o else set_option m k v o in
      rw (unpack_pair k v key (flat es) i o h) (
        unpack-flat es (i + 1 + 1) v j o' (omega arith) ne d.1
        ∙ ground (arith, bytes_beq_iff k [], bytes_beq_iff k j, get_option-set_option k j v o))

  unpack-flat_empty :
      (es : List (Bytes × Bytes)) (i : ℕ) (key : Bytes) (o : Option T)
      → i % 2 ≡ 0
      → get_option m (unpack_loop m (flat es) i key o) [] ≡ get_option m o []
  unpack-flat_empty [] i key o h = unfold unpack_loop in refl
  unpack-flat_empty ((k, v) ∷ es) i key o h =
      let o' = if bytes_beq k [] then o else set_option m k v o in
      rw (unpack_pair k v key (flat es) i o h) (
        unpack-flat_empty es (i + 1 + 1) v o' (omega arith)
        ∙ ground (arith, get_option-set_option k [] v o))

  get_option-entries :
      (t : T) (j : Bytes) → get_option m (some t) j ≡ found (lookup j (m.entries t)) ([], false)
  unfolding get_option
  get_option-entries t j = ground (arith, m.get_entries j t)

  pub pack-flat :
      (o : Option T) (args : List Bytes)
      → pack_options m o args ≡ args ++ flat (get_option_keys m o)
  unfolding pack_options option_size get_option_keys
  pack-flat none args = sym (append-nil args)
  pack-flat (some t) args = elim (Bool-cases (m.size t == 0)) [
    | inl none_there ↦
        rw none_there
          (rw (flat-nil (m.entries t) (ground (arith, m.size_entries t))) (sym (append-nil args)))
    | inr some_there ↦ rw some_there
  ]

  -- The options that follow the arguments of a packet are read back: every key that is not empty
  -- has the value that it had, or none.
  pub get-unpack-pack :
      (o : Option T) (j : Bytes)
      → j ≢ []
      → get_option m (unpack_options m (pack_options m o []) none) j ≡ get_option m o j
  unfolding unpack_options
  get-unpack-pack none j ne = rw pack-flat (unfold get_option_keys unpack_loop in refl)
  get-unpack-pack (some t) j ne = rw pack-flat (
      unfold get_option_keys in
      (unpack-flat (m.entries t) 0 _ j none refl ne (m.entries_once t)
        ∙ rw get_option-entries (unfold get_option in refl)))

  -- An option with an empty key is lost.
  pub get-unpack_empty :
      (o : Option T) → get_option m (unpack_options m (pack_options m o []) none) [] ≡ ([], false)
  get-unpack_empty o = rw pack-flat (
      unfold unpack_options in
      (unpack-flat_empty (get_option_keys m o) 0 _ none refl ∙ unfold get_option in refl))

  get_option-created : (o : Option T) (j : Bytes) → get_option m (created m o) j ≡ get_option m o j
  unfolding get_option created
  get_option-created none j = ground (arith, m.get_empty j)
  get_option-created (some t) j = refl

  -- A copy takes over every option of the source and keeps the options that the source has not.
  pub get_option-copy_options :
      (source o : Option T) (j : Bytes)
      → get_option m (copy_options m source o) j
        ≡ (if (get_option m source j).1 then get_option m source j else get_option m o j)
  unfolding copy_options
  get_option-copy_options none o j = get_option-created o j ∙ (unfold get_option in refl)
  get_option-copy_options (some t) o j =
      get-copy_entries (m.entries t) j (created m o) (m.entries_once t)
      ∙ ground (arith, get_option-created o j, get_option-entries t j)
