-- ===== src/Broker/Sender/Stream.antt =====
-- A connection over any sequence of events: buffers that it is given by `put`, and write events,
-- which `handle_output` handles. What went out and what waits is the stream of what was given.
use mqtt_server.Prelude.{
  ℕ, zero, suc, ◌-◌, ◌≤◌, ◌<◌, ◌≡◌, ◌≢◌, refl, sym, ap, ap₂, ◌∙◌, arith, List, [], ◌∷◌, ◌++◌, some,
  false, length, get_elem?, length-append, append-nil, append_assoc, get_elem?-append_keep,
  if◌then◌else◌, ◌==◌, All, subst,
}
use mqtt_server.Mbuf.{Mbuf, contents}
use mqtt_server.Broker.{World, Kernel, wrote}
use mqtt_server.Broker.Sender.{would_block, handle_output}
use mqtt_server.Broker.Sender.Steps.{Serves}
use mqtt_server.Broker.Sender.Output.{
  handle_output-send, handle_output-idle, cancel_if_empty-Serves,
}
use mqtt_server.Broker.Sender.Buffers.{
  bytes_at, bytes_at-some, pending, HasBytes, Good, Sent, nonblk_send-Sent,
}

-- What was written to a connection.
abbrev pub bytes_to : ℕ → List (ℕ × List ℕ) → List ℕ
bytes_to c [] = []
bytes_to c ((d, bytes) ∷ wire) = if d == c then bytes ++ bytes_to c wire else bytes_to c wire

bytes_to-snoc :
    (c : ℕ) (wire : List (ℕ × List ℕ)) (bytes : List ℕ)
    → bytes_to c (wire ++ (c, bytes) ∷ []) ≡ bytes_to c wire ++ bytes
bytes_to-snoc c [] bytes = ground (arith, append-nil bytes)
bytes_to-snoc c ((d, bs) ∷ wire) bytes =
    ground (arith, bytes_to-snoc c wire bytes, append_assoc bs (bytes_to c wire) bytes)

module _ (mbufs : List Mbuf) (m : Mbuf) where
  HasBytes-snoc : (b : ℕ) → HasBytes mbufs b → HasBytes (mbufs ++ m ∷ []) b
  HasBytes-snoc b (x, h, v, some_bytes) =
      (x, get_elem?-append_keep mbufs (m ∷ []) b x h, v, some_bytes)

  pub Good-snoc_mbuf : (queue : List ℕ) → Good mbufs queue → Good (mbufs ++ m ∷ []) queue
  Good-snoc_mbuf [] _ = tt
  Good-snoc_mbuf (b ∷ queue) (has, apart, good) =
      (HasBytes-snoc b has, apart, Good-snoc_mbuf queue good)

  pub pending-snoc_mbuf :
      (queue : List ℕ) → Good mbufs queue → pending (mbufs ++ m ∷ []) queue ≡ pending mbufs queue
  pending-snoc_mbuf [] _ = refl
  pending-snoc_mbuf (b ∷ queue) ((x, h, _, _), _, good) =
      ap₂ ◌++◌
        (bytes_at-some (mbufs ++ m ∷ []) b x (get_elem?-append_keep mbufs (m ∷ []) b x h)
          ∙ sym (bytes_at-some mbufs b x h))
        (pending-snoc_mbuf queue good)

get_elem?-lt : {A : Type 0} (xs : List A) (i : ℕ) (a : A) → get_elem? xs i ≡ some a → i < length xs
get_elem?-lt [] i a h = absurd cc
get_elem?-lt (x ∷ xs) zero a h = omega arith
get_elem?-lt (x ∷ xs) (suc i) a h = omega (arith, get_elem?-lt xs i a h)

pub Good-lt :
    (mbufs : List Mbuf) (queue : List ℕ) → Good mbufs queue → All (λ a. a ≢ length mbufs) queue
Good-lt mbufs [] _ = tt
Good-lt mbufs (b ∷ queue) ((m, h, _, _), _, good) =
    let lt = get_elem?-lt mbufs b m h in (λ e. omega (arith, lt, e), Good-lt mbufs queue good)

-- A buffer behind those of a queue.
pub Good-snoc :
    (mbufs : List Mbuf) (queue : List ℕ) (b : ℕ)
    → HasBytes mbufs b
    → All (λ a. a ≢ b) queue
    → Good mbufs queue
    → Good mbufs (queue ++ b ∷ [])
Good-snoc mbufs [] b has _ _ = (has, tt, tt)
Good-snoc mbufs (a ∷ queue) b has (other, others) (has_a, apart, good) =
    (has_a, apart_snoc queue apart, Good-snoc mbufs queue b has others good)
  where
    apart_snoc : (q : List ℕ) → All (λ x. a ≢ x) q → All (λ x. a ≢ x) (q ++ b ∷ [])
    apart_snoc [] _ = (other, tt)
    apart_snoc (x ∷ q) (h, hs) = (h, apart_snoc q hs)

pub pending-snoc :
    (mbufs : List Mbuf) (queue : List ℕ) (b : ℕ)
    → pending mbufs (queue ++ b ∷ []) ≡ pending mbufs queue ++ bytes_at mbufs b
pending-snoc mbufs [] b = append-nil (bytes_at mbufs b)
pending-snoc mbufs (a ∷ queue) b =
    ap (λ (l : List ℕ). bytes_at mbufs a ++ l) (pending-snoc mbufs queue b)
    ∙ sym (append_assoc (bytes_at mbufs a) (pending mbufs queue) (bytes_at mbufs b))

-- The connection serves this queue, and what it sent and what waits is what it was given.
pub record Streams (c : ℕ) (given queue : List ℕ) (w : World) : Type 0 where
  pub serves : Serves c queue w.mbufs w.wire w
  pub good : Good w.mbufs queue
  pub stream : bytes_to c w.wire ++ pending w.mbufs queue ≡ given
  pub fresh_errno : would_block w.errno ≡ false

-- The kernel takes a byte at least of what it is given, and no more than that.
abbrev pub TakesSome : Kernel → Type 0
TakesSome sys =
    (k : ℕ) (bytes : List ℕ)
    → 1 ≤ length bytes
    → (n : ℕ) × (sys.write k bytes ≡ wrote (suc n)) × (suc n ≤ length bytes)

pub Sent-stream :
    (c : ℕ) (queue bytes : List ℕ) (w v : World) (out : Sent c queue bytes w v)
    → bytes_to c v.wire ++ pending v.mbufs out.queue'
      ≡ bytes_to c w.wire ++ (bytes ++ pending w.mbufs queue)
Sent-stream c queue bytes w v out =
    ap (λ (l : List (ℕ × List ℕ)). bytes_to c l ++ pending v.mbufs out.queue') out.wire
    ∙ ap (λ (l : List ℕ). l ++ pending v.mbufs out.queue') (bytes_to-snoc c w.wire out.taken)
    ∙ append_assoc (bytes_to c w.wire) out.taken (pending v.mbufs out.queue')
    ∙ ap (λ (l : List ℕ). bytes_to c w.wire ++ l) out.stream

-- A write event: one buffer or a part of it goes out, so that less waits.
pub ready-Streams :
    (sys : Kernel) (c : ℕ) (given queue : List ℕ) (w : World)
    → TakesSome sys
    → Streams c given queue w
    → (v : World) × (queue' : List ℕ) × (handle_output sys c w ≡ some (tt, v))
      × Streams c given queue' v
      × (length queue' ≤ length queue)
      × (length (pending v.mbufs queue') ≤ length (pending w.mbufs queue) - 1)
ready-Streams sys c given [] w takes s =
    let (v, ran, (conn, h, q, mb, wi), same) = handle_output-idle sys c w s.serves in
    (
      v,
      [],
      ran,
      record {
        serves = (conn, h, q, refl, refl);
        good = tt;
        stream = ap (λ (l : List (ℕ × List ℕ)). bytes_to c l ++ []) wi ∙ s.stream;
        fresh_errno = ap would_block same ∙ s.fresh_errno;
      },
      omega arith,
      omega arith,
    )
ready-Streams sys c given (b ∷ queue) w takes s =
    let ((m, hb, valid, some_bytes), apart, good) = s.good in
    let (u, (conn, h, q, mb, wi), same, calls, next) =
      handle_output-send sys c b queue w s.serves in
    let (n, hw, few) = takes u.calls (contents m) some_bytes in
    let (r, v, ran, out) =
      nonblk_send-Sent sys c b n queue m u (conn, h, q, refl, refl) apart
        (subst (λ (ms : List Mbuf). Good ms queue) (sym mb) good)
        (ap (λ (ms : List Mbuf). get_elem? ms b) mb ∙ hb) valid hw few
        (ap would_block same ∙ s.fresh_errno) in
    let (x, done_it, (conn', h', q', mb', wi'), same') =
      cancel_if_empty-Serves sys c out.queue' v out.serves in
    let waiting : contents m ++ pending u.mbufs queue ≡ pending w.mbufs (b ∷ queue) =
      ap₂ ◌++◌ (sym (bytes_at-some w.mbufs b m hb))
        (ap (λ (ms : List Mbuf). pending ms queue) mb) in
    let later : pending x.mbufs out.queue' ≡ pending v.mbufs out.queue' =
      ap (λ (ms : List Mbuf). pending ms out.queue') mb' in
    let size = length-append out.taken (pending v.mbufs out.queue') in
    (
      x,
      out.queue',
      next (some r) v ran ∙ done_it,
      record {
        serves = (conn', h', q', refl, refl);
        good = subst (λ (ms : List Mbuf). Good ms out.queue') (sym mb') out.good;
        stream =
            ap₂ (λ (l : List (ℕ × List ℕ)) (p : List ℕ). bytes_to c l ++ p) wi' later
            ∙ Sent-stream c queue (contents m) u v out
            ∙ ap₂ (λ (l : List (ℕ × List ℕ)) (p : List ℕ). bytes_to c l ++ p) wi waiting
            ∙ s.stream;
        fresh_errno = ap would_block same' ∙ out.fresh_errno;
      },
      out.short,
      omega (arith, size, ap length out.stream, ap length waiting, ap length later, out.some_taken),
    )
