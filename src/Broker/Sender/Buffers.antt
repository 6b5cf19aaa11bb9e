-- ===== src/Broker/Sender/Buffers.antt =====
-- The bytes that wait in the queue of a connection, and what one `nonblk_send` moves of them to
-- the wire.
use mqtt_server.Prelude.{
  ℕ, suc, ◌≤◌, ◌≡◌, ◌≢◌, refl, sym, ap, ap₂, ◌∙◌, arith, List, [], ◌∷◌, ◌++◌, Option, none, some,
  Bool, true, false, length, take, drop, get_elem?, set, ltb, take-append-drop, take-all,
  length-drop, length-take, subst, append_assoc, get_elem?-set, get_elem?-set_other, Bool-cases,
  inl, inr, if◌then◌else◌, All,
}
use mqtt_server.Mbuf.{Mbuf, count, contents, skip_read}
use mqtt_server.Mbuf.Laws.{IsValid, count-length, skip_read-contents}
use mqtt_server.Broker.{World, Kernel, wrote}
use mqtt_server.Broker.Sender.{eagain, would_block, nonblk_send, send}
use mqtt_server.Broker.Sender.Steps.{Serves, send-Serves, nonblk_send-keep, nonblk_send-done}

-- The bytes that a queue of buffers holds.
abbrev pub bytes_at : List Mbuf → ℕ → List ℕ
bytes_at mbufs b = elim (get_elem? mbufs b) [ none ↦ [] | some m ↦ contents m ]

abbrev pub pending : List Mbuf → List ℕ → List ℕ
pending mbufs [] = []
pending mbufs (b ∷ queue) = bytes_at mbufs b ++ pending mbufs queue

-- A buffer that is there, valid and not empty.
abbrev pub HasBytes : List Mbuf → ℕ → Type 0
HasBytes mbufs b = (m : Mbuf) × (get_elem? mbufs b ≡ some m) × IsValid m × (1 ≤ length (contents m))

-- The buffers of a queue have bytes, and none stands twice.
abbrev pub Good : List Mbuf → List ℕ → Type 0
Good mbufs [] = Unit
Good mbufs (b ∷ queue) = HasBytes mbufs b × All (λ a. b ≢ a) queue × Good mbufs queue

pub bytes_at-some :
    (mbufs : List Mbuf) (b : ℕ) (m : Mbuf)
    → get_elem? mbufs b ≡ some m
    → bytes_at mbufs b ≡ contents m
bytes_at-some mbufs b m h =
    ap (λ (o : Option Mbuf). elim o as (λ _. List ℕ) [ none ↦ [] | some x ↦ contents x ]) h

module _ (mbufs : List Mbuf) (b : ℕ) (x : Mbuf) where
  pub pending-set :
      (queue : List ℕ)
      → All (λ a. b ≢ a) queue
      → pending (set mbufs b x) queue ≡ pending mbufs queue
  pending-set [] _ = refl
  pending-set (a ∷ queue) (other, others) =
      ap₂ ◌++◌
        (ap (λ (o : Option Mbuf). elim o as (λ _. List ℕ) [ none ↦ [] | some m ↦ contents m ])
          (get_elem?-set_other mbufs b a x other))
        (pending-set queue others)

  pub Good-set :
      (queue : List ℕ) → All (λ a. b ≢ a) queue → Good mbufs queue → Good (set mbufs b x) queue
  Good-set [] _ _ = tt
  Good-set (a ∷ queue) (other, others) ((m, h, v, some_bytes), apart, good) = (
    (m, get_elem?-set_other mbufs b a x other ∙ h, v, some_bytes),
    apart,
    Good-set queue others good,
  )

-- A connection after one `nonblk_send` of a buffer with these bytes: what went out and what waits
-- are the bytes and what waited before.
pub record Sent (c : ℕ) (queue bytes : List ℕ) (w v : World) : Type 0 where
  pub taken : List ℕ
  pub queue' : List ℕ
  pub serves : Serves c queue' v.mbufs v.wire v
  pub wire : v.wire ≡ w.wire ++ (c, taken) ∷ []
  pub stream : taken ++ pending v.mbufs queue' ≡ bytes ++ pending w.mbufs queue
  pub good : Good v.mbufs queue'
  pub some_taken : 1 ≤ length taken
  pub short : length queue' ≤ suc (length queue)
  pub fresh_errno : would_block v.errno ≡ false

module _ (sys : Kernel) (c b n : ℕ) (queue : List ℕ) (m : Mbuf) (w : World)
    (s : Serves c queue w.mbufs w.wire w) (apart : All (λ a. b ≢ a) queue)
    (good : Good w.mbufs queue) (hb : get_elem? w.mbufs b ≡ some m) (valid : IsValid m)
    (hw : sys.write w.calls (contents m) ≡ wrote (suc n)) (few : suc n ≤ length (contents m))
    (he : would_block w.errno ≡ false) where
  abbrev Moves : Type 0
  Moves =
      (r : ℕ) × (v : World) × (nonblk_send sys c b w ≡ some (some r, v))
      × Sent c queue (contents m) w v

  -- The kernel took a part: the rest of the buffer waits in front.
  sent_part : ltb (suc n) (count m) ≡ true → Moves
  sent_part part =
      let (v, ran, (conn, h, q, mb, wi), free) = send-Serves sys c b n queue m w s hb hw in
      let ran' : send sys c b w ≡ some ((some (suc n), eagain), v) =
        ran ∙ ap (λ (t : Bool). some ((some (suc n), if t then eagain else w.errno), v)) part in
      let (u, kept, (conn', h', q', mb', wi'), same) =
        nonblk_send-keep sys c b (suc n) queue w v ran' (conn, h, q, refl, refl) in
      let rest = skip_read m (suc n) in
      let (valid', left, _) = skip_read-contents m (suc n) valid few in
      let later : u.mbufs ≡ set w.mbufs b rest =
        mb' ∙ mb ∙ ap (λ (t : Bool). if t then set w.mbufs b rest else w.mbufs) part in
      let here = get_elem?-set w.mbufs b m rest hb in
      let head : bytes_at u.mbufs b ≡ drop (suc n) (contents m) =
        ap (λ (ms : List Mbuf). bytes_at ms b) later
        ∙ bytes_at-some (set w.mbufs b rest) b rest here
        ∙ left in
      let tail : pending u.mbufs queue ≡ pending w.mbufs queue =
        ap (λ (ms : List Mbuf). pending ms queue) later ∙ pending-set w.mbufs b rest queue apart in
      let size = count-length m valid in
      let some_left : 1 ≤ length (contents rest) =
        ground (arith, part, size, ap length left, length-drop (suc n) (contents m)) in
      (
        0,
        u,
        kept,
        record {
          taken = take (suc n) (contents m);
          queue' = b ∷ queue;
          serves = (conn', h', q', refl, refl);
          wire = wi' ∙ wi;
          stream =
              ap₂ (λ (x y : List ℕ). take (suc n) (contents m) ++ (x ++ y)) head tail
              ∙ sym (
                  append_assoc (take (suc n) (contents m)) (drop (suc n) (contents m))
                    (pending w.mbufs queue))
              ∙ ap (λ (x : List ℕ). x ++ pending w.mbufs queue)
                  (take-append-drop (suc n) (contents m));
          good =
              subst (λ (ms : List Mbuf). Good ms (b ∷ queue)) (sym later)
                ((rest, here, valid', some_left), apart, Good-set w.mbufs b rest queue apart good);
          some_taken = omega (arith, length-take (suc n) (contents m) few);
          short = omega arith;
          fresh_errno = ap would_block same ∙ free he;
        },
      )

  -- The kernel took the whole buffer.
  sent_whole : ltb (suc n) (count m) ≡ false → Moves
  sent_whole whole =
      let (v, ran, (conn, h, q, mb, wi), free) = send-Serves sys c b n queue m w s hb hw in
      let ran' : send sys c b w ≡ some ((some (suc n), w.errno), v) =
        ran ∙ ap (λ (t : Bool). some ((some (suc n), if t then eagain else w.errno), v)) whole in
      let same : v.mbufs ≡ w.mbufs =
        mb ∙ ap (λ (t : Bool). if t then set w.mbufs b (skip_read m (suc n)) else w.mbufs) whole in
      let all : take (suc n) (contents m) ≡ contents m =
        take-all (suc n) (contents m) (ground (arith, whole, count-length m valid)) in
      (
        suc n,
        v,
        nonblk_send-done sys c b (suc n) w.errno w v ran' he,
        record {
          taken = take (suc n) (contents m);
          queue' = queue;
          serves = (conn, h, q, refl, refl);
          wire = wi;
          stream = ap₂ ◌++◌ all (ap (λ (ms : List Mbuf). pending ms queue) same);
          good = subst (λ (ms : List Mbuf). Good ms queue) (sym same) good;
          some_taken = omega (arith, length-take (suc n) (contents m) few);
          short = omega arith;
          fresh_errno = free he;
        },
      )

  pub nonblk_send-Sent : Moves
  nonblk_send-Sent = elim (Bool-cases (ltb (suc n) (count m))) [
    | inl part ↦ sent_part part
    | inr whole ↦ sent_whole whole
  ]
