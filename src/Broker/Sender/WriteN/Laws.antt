-- ===== src/Broker/Sender/WriteN/Laws.antt =====
-- What `write_n` puts on the wire when the kernel takes a part at a time.
use mqtt_server.Prelude.{
  ℕ, zero, suc, ◌+◌, ◌-◌, ◌≤◌, ◌<◌, ◌≡◌, refl, sym, ap, ◌∙◌, arith, List, [], ◌∷◌, ◌++◌, some, true,
  length, take, take-all, append-nil, append_assoc,
}
use mqtt_server.Broker.{World, Kernel, wrote}
use mqtt_server.Broker.Sender.{sys_write}
use mqtt_server.Broker.Sender.Whole.{TakesWhole}
use mqtt_server.Broker.Sender.WriteN.{write_loop, write_n}

-- The calls from the one of number `k` on take these counts, none of them 0.
abbrev pub Takes : Kernel → (k : ℕ) → List ℕ → Type 0
Takes sys k [] = Unit
Takes sys k (n ∷ counts) =
    (0 < n) × ((bytes : List ℕ) → sys.write k bytes ≡ wrote n) × Takes sys (k + 1) counts

abbrev pub total : List ℕ → ℕ
total [] = 0
total (n ∷ counts) = n + total counts

-- Every call starts at the first byte again.
abbrev pub restarts : (c : ℕ) → (buf : List ℕ) → (counts : List ℕ) → List (ℕ × List ℕ)
restarts c buf [] = []
restarts c buf (n ∷ counts) = (c, take n buf) ∷ restarts c buf counts

take-take : (n k : ℕ) (buf : List ℕ) → n ≤ k → take n (take k buf) ≡ take n buf
take-take zero k buf h = refl
take-take (suc n) zero buf h = absurd (omega arith)
take-take (suc n) (suc k) [] h = refl
take-take (suc n) (suc k) (x ∷ xs) h = ap (◌∷◌ x) (take-take n k xs (omega arith))

write_loop-restarts :
    (sys : Kernel) (fuel c : ℕ) (buf : List ℕ) (len : ℕ) (counts : List ℕ) (w : World)
    → Takes sys w.calls counts
    → total counts ≡ len
    → length counts ≤ fuel
    → (v : World) × (write_loop sys fuel c buf len w ≡ some (true, v))
      × (v.wire ≡ w.wire ++ restarts c buf counts)
unfolding write_loop sys_write
write_loop-restarts sys fuel c buf zero [] w takes sum enough = (w, refl, sym (append-nil w.wire))
write_loop-restarts sys fuel c buf zero (n ∷ counts) w takes sum enough =
    absurd (omega (arith, takes.0))
write_loop-restarts sys zero c buf (suc k) [] w takes sum enough = absurd (omega arith)
write_loop-restarts sys zero c buf (suc k) (n ∷ counts) w takes sum enough = absurd (omega arith)
write_loop-restarts sys (suc fuel) c buf (suc k) [] w takes sum enough = absurd (omega arith)
write_loop-restarts sys (suc fuel) c buf (suc k) (n ∷ counts) w (some_bytes, now, later) sum
      enough =
    let w1 : World = record w {
      calls = w.calls + 1;
      wire = w.wire ++ (c, take n (take (suc k) buf)) ∷ [];
    } in
    let (v, ran, wires) =
      write_loop-restarts sys fuel c buf (suc k - n) counts w1 later (omega (arith, sum))
        (omega arith) in
    (
      v,
      ground (arith, now (take (suc k) buf), ran),
      wires
          ∙ append_assoc w.wire ((c, take n (take (suc k) buf)) ∷ []) (restarts c buf counts)
          ∙ ap (λ (l : List ℕ). w.wire ++ (c, l) ∷ restarts c buf counts)
              (take-take n (suc k) buf (omega (arith, sum))),
    )

-- Where the kernel takes the bytes in parts, each of one byte at least and all of them as many as
-- the bytes, and there is a round for each part: `write_n` answers that all is written, and the
-- part of each call is not the next part of the bytes, but starts with the first byte again.
pub write_n-restarts :
    (sys : Kernel) (fuel c : ℕ) (buf : List ℕ) (counts : List ℕ) (w : World)
    → Takes sys w.calls counts
    → total counts ≡ length buf
    → length counts ≤ fuel
    → (v : World) × (write_n sys fuel c buf w ≡ some (true, v))
      × (v.wire ≡ w.wire ++ restarts c buf counts)
unfolding write_n
write_n-restarts sys fuel c buf counts w takes sum enough =
    write_loop-restarts sys fuel c buf (length buf) counts w takes sum enough

pub take-length : (buf : List ℕ) → take (length buf) buf ≡ buf
take-length buf = take-all (length buf) buf (omega arith)

-- A kernel that takes everything is called once.
pub write_n-whole :
    (sys : Kernel) (fuel c : ℕ) (buf : List ℕ) (w : World)
    → TakesWhole sys
    → 1 ≤ fuel
    → 1 ≤ length buf
    → write_n sys fuel c buf w
      ≡ some (true, record w { calls = w.calls + 1; wire = w.wire ++ (c, buf) ∷ [] })
unfolding write_n write_loop sys_write
write_n-whole sys zero c buf w takes enough some_bytes = absurd (omega arith)
write_n-whole sys (suc fuel) c [] w takes enough some_bytes = absurd (omega arith)
write_n-whole sys (suc fuel) c (x ∷ xs) w takes enough some_bytes =
    let all = take-length (x ∷ xs) in
    let done : suc (length xs) - suc (length xs) ≡ 0 = omega arith in
    rw (all, takes w.calls (x ∷ xs), all, done) refl
