-- ===== src/Snapshot/Ceilings.antt =====
-- The ceilings of the protocol.
use Prim.Native.String.{String}
use the_dudes_daemon.Base.{
  ℕ, ◌+◌, ◌≤◌, ◌≡◌, refl, Bool, true, false, not, Option, none, some, List, [], ◌∷◌, ◌++◌, arith,
  leb, ltb, length, length-append, if◌then◌else◌, inl, inr, Bool-cases, contains, add, lookup,
  comparable_string, ◌==◌,
}
use the_dudes_daemon.Principal.{same_option}
use the_dudes_daemon.Dedup.{is_id}
use the_dudes_daemon.Snapshot.{
  WireRecord, QueueLiveItem, PendingItem, Snapshot, vazio, Tetos, empurrar, interno, registrado,
  sem_registro, com_registro, por_id, por_ids, montar, montar_snapshot, ids_of,
}

-- The measure of all items together.
abbrev pub soma : (QueueLiveItem → ℕ) → List QueueLiveItem → ℕ
soma medir [] = 0
soma medir (it ∷ items) = medir it + soma medir items

soma-append :
    (medir : QueueLiveItem → ℕ) (xs ys : List QueueLiveItem)
    → soma medir (xs ++ ys) ≡ soma medir xs + soma medir ys
soma-append medir [] ys = omega arith
soma-append medir (x ∷ xs) ys = omega (arith, soma-append medir xs ys)

module _ (medir : QueueLiveItem → ℕ) (tetos : Tetos) where
  -- Within both ceilings, with the bytes counted right.
  pub record Fits (s : Snapshot) : Type 0 where
    pub few : length s.items ≤ tetos.max_itens
    pub small : soma medir s.items ≤ tetos.max_bytes
    pub counted : s.bytes ≡ soma medir s.items

  Fits-if : {s t : Snapshot} (b : Bool) → Fits s → Fits t → Fits (if b then s else t)
  Fits-if true f g = f
  Fits-if false f g = g

  empurrar-Fits : (it : QueueLiveItem) (s : Snapshot) → Fits s → Fits (empurrar medir tetos it s)
  unfolding empurrar
  empurrar-Fits it s f = elim (Bool-cases (leb tetos.max_itens (length s.items))) [
    | inl full ↦ rw full (record { few = f.few; small = f.small; counted = f.counted })
    | inr room ↦ elim (Bool-cases (ltb tetos.max_bytes (s.bytes + medir it))) [
      | inl long ↦ rw (room, long) (record { few = f.few; small = f.small; counted = f.counted })
      | inr short ↦
          let sum = soma-append medir s.items (it ∷ []) in
          let few : length s.items + 1 ≤ tetos.max_itens = ground arith in
          let small : s.bytes + medir it ≤ tetos.max_bytes = ground arith in
          rw (room, short)
            (record {
              few = omega (arith, length-append s.items (it ∷ []));
              small = omega (arith, sum, f.counted);
              counted = omega (arith, sum, f.counted);
            })
    ]
  ]

  module _ (selar : String → Option (List String) → Option (String × Option (List String)))
      (nome : ℕ → String) (cifrado : Bool) (agora : ℕ)
      (registros : List (String × WireRecord)) where
    interno-Fits :
        (p : PendingItem) (o : Option (String × Option (List String))) (s : Snapshot)
        → Fits s
        → Fits (interno medir tetos selar nome cifrado agora registros p o s)
    unfolding interno
    interno-Fits p none s f = record { few = f.few; small = f.small; counted = f.counted }
    interno-Fits p (some (content, images)) s f =
        empurrar-Fits _ _ (record { few = f.few; small = f.small; counted = f.counted })

    sem_registro-Fits :
        (p : PendingItem) (id : Option String) (s : Snapshot)
        → Fits s
        → Fits (sem_registro medir tetos selar nome cifrado agora registros p id s)
    unfolding sem_registro
    sem_registro-Fits p id s f =
        Fits-if (same_option (λ x y. x == y) id p.delivery_id) (interno-Fits p _ s f) f

    com_registro-Fits :
        (p : PendingItem) (id : String) (o : Option WireRecord) (s : Snapshot)
        → Fits s
        → Fits (com_registro medir tetos selar nome cifrado agora registros p id o s)
    unfolding com_registro registrado
    com_registro-Fits p id (some reg) s f = empurrar-Fits _ s f
    com_registro-Fits p id none s f = sem_registro-Fits p (some id) s f

    por_id-Fits :
        (p : PendingItem) (s : Snapshot) (id : Option String)
        → Fits s
        → Fits (por_id medir tetos selar nome cifrado agora registros p s id)
    unfolding por_id
    por_id-Fits p s none f = Fits-if s.truncated f (sem_registro-Fits p none s f)
    por_id-Fits p s (some id) f = Fits-if s.truncated f (
        Fits-if (not (is_id (some id))) (sem_registro-Fits p (some id) s f) (
          Fits-if (contains id s.vistos) f (
            com_registro-Fits p id (lookup id registros) (record s { vistos = add id s.vistos })
              (record { few = f.few; small = f.small; counted = f.counted }))))

    por_ids-Fits :
        (p : PendingItem) (ids : List (Option String)) (s : Snapshot)
        → Fits s
        → Fits (por_ids medir tetos selar nome cifrado agora registros p ids s)
    unfolding por_ids
    por_ids-Fits p [] s f = f
    por_ids-Fits p (id ∷ ids) s f = por_ids-Fits p ids _ (por_id-Fits p s id f)

    montar-Fits :
        (ps : List PendingItem) (s : Snapshot)
        → Fits s
        → Fits (montar medir tetos selar nome cifrado agora registros ps s)
    unfolding montar
    montar-Fits [] s f = f
    montar-Fits (p ∷ ps) s f = montar-Fits ps _ (por_ids-Fits p (ids_of p) s f)

    -- Whatever waits and however it is sealed, the frame holds at most `maxItens` items, which
    -- measure at most `maxBytes` together, and its count of the bytes is their measure.
    pub montar_snapshot-Fits :
        (pendentes : List PendingItem)
        → Fits (montar_snapshot medir tetos selar nome cifrado agora registros pendentes)
    unfolding montar_snapshot vazio
    montar_snapshot-Fits pendentes =
        montar-Fits pendentes vazio
          (record { few = omega arith; small = omega arith; counted = refl })
