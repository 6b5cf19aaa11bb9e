-- ===== src/Persist/Loop.antt =====
-- The loop of `restore`: it ends, and on a file that was written it runs what each chunk asks for,
-- in order.
use mqtt_server.Prelude.{
  ℕ, zero, suc, ◌+◌, ◌*◌, ◌≤◌, ◌<◌, ◌≡◌, refl, sym, ap, ◌∙◌, arith, List, [], ◌∷◌, ◌++◌, none, some,
  Option, subst, Bool, true, false, length, ltb, leb, ◌==◌, length-append, length-drop, Bool-cases,
  inl, inr,
}
use mqtt_server.Broker.{World, Kernel, M, ◌>>=◌, pure}
use mqtt_server.Persist.{ChunkType, chunk_tag, max_chunk, Format}
use mqtt_server.Persist.Restore.{
  ReadChunk, finished, wrong, chunk, read_body, read_chunk, to_chunk_type, TmpDb, restore_chunk,
  restore_chunks,
}
use mqtt_server.Persist.Chunks.{chunk_bytes, read_chunk-chunk_bytes, to_chunk_type-chunk_code}

-- What follows the chunk that was read is shorter by the header at least.
abbrev Shorter : List ℕ → ReadChunk → Type 0
Shorter file finished = Unit
Shorter file wrong = Unit
Shorter file (chunk _ _ rest) = length rest + 6 ≤ length file

read_body-Shorter : (ty : ℕ) (file : List ℕ) → Shorter (0 ∷ 0 ∷ file) (read_body ty file)
unfolding read_body
read_body-Shorter ty [] = tt
read_body-Shorter ty (a ∷ []) = tt
read_body-Shorter ty (a ∷ b ∷ []) = tt
read_body-Shorter ty (a ∷ b ∷ c ∷ []) = tt
read_body-Shorter ty (a ∷ b ∷ c ∷ d ∷ file) =
    let n = a + 256 * b + 65536 * c + 16777216 * d in
    elim (Bool-cases (ltb max_chunk n)) [
      | inl large ↦ rw large tt
      | inr small ↦ elim (Bool-cases (leb n (length file))) [
        | inl there ↦ rw (small, there) (omega (arith, length-drop n file))
        | inr cut ↦ rw (small, cut) tt
      ]
    ]

pub read_chunk-Shorter : (file : List ℕ) → Shorter file (read_chunk file)
unfolding read_chunk
read_chunk-Shorter [] = tt
read_chunk-Shorter (tag ∷ []) = tt
read_chunk-Shorter (tag ∷ ty ∷ file) = elim (Bool-cases (tag == chunk_tag)) [
  | inl e ↦ rw e (read_body-Shorter ty file)
  | inr e ↦ rw e tt
]

-- A round, with the rest of the loop as an argument.
abbrev pub next_round :
    Kernel → Format → TmpDb → (List ℕ → TmpDb → M (Bool × TmpDb)) → ReadChunk → M (Bool × TmpDb)
next_round sys format tmp again finished = pure (true, tmp)
next_round sys format tmp again wrong = pure (false, tmp)
next_round sys format tmp again (chunk ty buf rest) =
    restore_chunk sys format (to_chunk_type ty) buf tmp >>= λ res.
    elim res as (λ _. M (Bool × TmpDb)) [ none ↦ pure (false, tmp) | some tmp' ↦ again rest tmp' ]

pub restore_chunks-round :
    (sys : Kernel) (format : Format) (fuel : ℕ) (file : List ℕ) (tmp : TmpDb)
    → restore_chunks sys format (suc fuel) file tmp
      ≡ next_round sys format tmp (restore_chunks sys format fuel) (read_chunk file)
unfolding restore_chunks
restore_chunks-round sys format fuel file tmp = elim (read_chunk file) [
  | finished ↦ refl
  | wrong ↦ refl
  | chunk _ _ _ ↦ refl
]

-- The runs of the loop of `restore`, without fuel: chunks, one after the other, up to the end of
-- the file, something that is no chunk, a chunk of a type that is not known, or one whose restoring
-- has no result.
pub data Ends (sys : Kernel) (format : Format)
    : List ℕ → TmpDb → World → Option ((Bool × TmpDb) × World) → Type 0 where
  file_end :
      {file : List ℕ} {tmp : TmpDb} {w : World}
      → read_chunk file ≡ finished
      → Ends sys format file tmp w (some ((true, tmp), w))
  no_chunk :
      {file : List ℕ} {tmp : TmpDb} {w : World}
      → read_chunk file ≡ wrong
      → Ends sys format file tmp w (some ((false, tmp), w))
  no_answer :
      {file buf rest : List ℕ} {ty : ℕ} {tmp : TmpDb} {w : World}
      → read_chunk file ≡ chunk ty buf rest
      → restore_chunk sys format (to_chunk_type ty) buf tmp w ≡ none
      → Ends sys format file tmp w none
  unknown_type :
      {file buf rest : List ℕ} {ty : ℕ} {tmp : TmpDb} {w w' : World}
      → read_chunk file ≡ chunk ty buf rest
      → restore_chunk sys format (to_chunk_type ty) buf tmp w ≡ some (none, w')
      → Ends sys format file tmp w (some ((false, tmp), w'))
  next :
      {file buf rest : List ℕ} {ty : ℕ} {tmp tmp' : TmpDb} {w w' : World}
      {r : Option ((Bool × TmpDb) × World)}
      → read_chunk file ≡ chunk ty buf rest
      → restore_chunk sys format (to_chunk_type ty) buf tmp w ≡ some (some tmp', w')
      → Ends sys format rest tmp' w' r
      → Ends sys format file tmp w r

chunk-Ends :
    (sys : Kernel) (format : Format) (file buf rest : List ℕ) (ty : ℕ) (tmp : TmpDb) (w : World)
    (again : List ℕ → TmpDb → M (Bool × TmpDb)) (res : Option (Option TmpDb × World))
    → read_chunk file ≡ chunk ty buf rest
    → restore_chunk sys format (to_chunk_type ty) buf tmp w ≡ res
    → ((t : TmpDb) (v : World) → Ends sys format rest t v (again rest t v))
    → Ends sys format file tmp w (elim res as (λ _. Option ((Bool × TmpDb) × World)) [
      | none ↦ none
      | some (a, v) ↦
          (elim a as (λ _. M (Bool × TmpDb)) [
            | none ↦ pure (false, tmp)
            | some tmp' ↦ again rest tmp'
          ])
            v
    ])
chunk-Ends sys format file buf rest ty tmp w again none read ran h = no_answer read ran
chunk-Ends sys format file buf rest ty tmp w again (some (none, v)) read ran h =
    unknown_type read ran
chunk-Ends sys format file buf rest ty tmp w again (some (some tmp', v)) read ran h =
    next read ran (h tmp' v)

next_round-Ends :
    (sys : Kernel) (format : Format) (file : List ℕ) (tmp : TmpDb) (w : World)
    (again : List ℕ → TmpDb → M (Bool × TmpDb)) (r : ReadChunk)
    → read_chunk file ≡ r
    → Shorter file r
    → ((rest : List ℕ) (t : TmpDb) (v : World)
        → length rest < length file
        → Ends sys format rest t v (again rest t v))
    → Ends sys format file tmp w (next_round sys format tmp again r w)
next_round-Ends sys format file tmp w again finished read s h = file_end read
next_round-Ends sys format file tmp w again wrong read s h = no_chunk read
next_round-Ends sys format file tmp w again (chunk ty buf rest) read s h =
    chunk-Ends sys format file buf rest ty tmp w again _ read refl
      (λ t v. h rest t v (omega (arith, s)))

restore_chunks-rounds :
    (sys : Kernel) (format : Format) (fuel : ℕ) (file : List ℕ) (tmp : TmpDb) (w : World)
    → length file < fuel
    → Ends sys format file tmp w (restore_chunks sys format fuel file tmp w)
restore_chunks-rounds sys format zero file tmp w h = absurd (omega arith)
restore_chunks-rounds sys format (suc fuel) file tmp w h =
    subst (λ (m : M (Bool × TmpDb)). Ends sys format file tmp w (m w))
      (sym (restore_chunks-round sys format fuel file tmp))
      (next_round-Ends sys format file tmp w _ (read_chunk file) refl (read_chunk-Shorter file)
        (λ rest t v short. restore_chunks-rounds sys format fuel rest t v (omega arith)))

-- With the fuel that `restore` gives for a file, whatever its bytes and in any state of the broker,
-- what the model of the loop answers is what a run comes to that has an end: after finitely many
-- chunks the file ends, which is the only success, or what follows is no chunk or one of an unknown
-- type, which is -1, or, the only case without a result, a chunk is restored without a result.
pub restore_chunks-Ends :
    (sys : Kernel) (format : Format) (file : List ℕ) (tmp : TmpDb) (w : World)
    → Ends sys format file tmp w (restore_chunks sys format (suc (length file)) file tmp w)
restore_chunks-Ends sys format file tmp w =
    restore_chunks-rounds sys format (suc (length file)) file tmp w (omega arith)

-- The chunks of a file, in order.
abbrev pub Chunks : Type 0
Chunks = List (ChunkType × List ℕ)

abbrev pub file_of : Chunks → List ℕ
file_of [] = []
file_of ((ty, packed) ∷ chunks) = chunk_bytes ty packed ++ file_of chunks

abbrev pub AllFit : Chunks → Type 0
AllFit [] = Unit
AllFit ((ty, packed) ∷ chunks) = (length packed ≤ max_chunk) × AllFit chunks

read_chunk-nil : read_chunk [] ≡ finished
unfolding read_chunk
read_chunk-nil = refl

-- What every chunk asks for, one after the other; none of the four types answers -1.
abbrev pub run_chunks : Kernel → Format → Chunks → TmpDb → M (Bool × TmpDb)
run_chunks sys format [] tmp = pure (true, tmp)
run_chunks sys format ((ty, packed) ∷ chunks) tmp =
    restore_chunk sys format (some ty) packed tmp >>= λ res. elim res as (λ _. M (Bool × TmpDb)) [
      | none ↦ pure (false, tmp)
      | some tmp' ↦ run_chunks sys format chunks tmp'
    ]

-- On the file of a list of chunks of 1 MiB at most, the loop of `restore` does what the chunks ask
-- for, in their order, given more fuel than the file has bytes.
pub restore_chunks-file_of :
    (sys : Kernel) (format : Format) (fuel : ℕ) (chunks : Chunks) (tmp : TmpDb)
    → AllFit chunks
    → length (file_of chunks) < fuel
    → restore_chunks sys format fuel (file_of chunks) tmp ≡ run_chunks sys format chunks tmp
restore_chunks-file_of sys format zero chunks tmp fits h = absurd (omega arith)
restore_chunks-file_of sys format (suc fuel) [] tmp fits h =
    restore_chunks-round sys format fuel [] tmp
    ∙ ap (next_round sys format tmp (restore_chunks sys format fuel)) read_chunk-nil
restore_chunks-file_of sys format (suc fuel) ((ty, packed) ∷ chunks) tmp (fit, fits) h =
    let size = length-append packed (file_of chunks) in
    restore_chunks-round sys format fuel (file_of ((ty, packed) ∷ chunks)) tmp
    ∙ ap (next_round sys format tmp (restore_chunks sys format fuel))
        (read_chunk-chunk_bytes ty packed (file_of chunks) fit)
    ∙ (λ i. restore_chunk sys format (to_chunk_type-chunk_code ty i) packed tmp >>= λ res.
        elim res as (λ _. M (Bool × TmpDb)) [
          | none ↦ pure (false, tmp)
          | some tmp' ↦
              restore_chunks-file_of sys format fuel chunks tmp' fits (omega (arith, size)) i
        ])
