-- ===== src/Persist/Mbufs.antt =====
-- A buffer that `restore_mbuf` makes has the bytes and the id of the one that was packed.
use mqtt_server.Prelude.{
  ℕ, ◌+◌, ◌-◌, ◌<◌, ◌%◌, ◌^◌, ◌≡◌, ◌≢◌, refl, sym, ap, ◌∙◌, arith, List, [], ◌∷◌, ◌++◌, Option,
  none, some, true, false, length, take, drop, replicate, ltb, leb, ◌==◌, length-take, length-drop,
  length-replicate,
}
use mqtt_server.Prelude.Memory.{overwrite, take-overwrite}
use mqtt_server.Mbuf.{Mbuf, init, copy, msg_data, count, contents}
use mqtt_server.Mbuf.Laws.{IsValid}
use mqtt_server.MsgStore.{assign, add_msg}
use mqtt_server.Broker.{World, Kernel}
use mqtt_server.Persist.{Format}
use mqtt_server.Persist.Restore.{TmpDb, restored_mbuf, restore_mbuf, restore_db_msg}

-- What a copy into a new buffer holds.
copy-init :
    (mem bytes : List ℕ) (now msg_id : ℕ)
    → length mem ≡ length bytes
    → length mem < 2 ^ 31
    → (b : Mbuf) × (copy (record (init mem now) { msg_id = msg_id }) bytes ≡ some b)
      × (contents b ≡ bytes)
      × (b.msg_id ≡ msg_id)
unfolding copy init contents count
copy-init mem bytes now msg_id size small =
    let end : (0 + length bytes) % 2 ^ 32 ≡ length bytes = omega (arith, size, small) in
    let fits : ltb (length mem) (length bytes) ≡ false = ground (arith, size) in
    let n : (length bytes + 2 ^ 32 - 0) % 2 ^ 32 ≡ length bytes = omega (arith, size, small) in
    let b : Mbuf = record {
      mem = overwrite mem 0 bytes;
      msg_type = msg_data;
      read_pos = 0;
      write_pos = length bytes;
      msg_id = msg_id;
      time = now;
    } in
    let size0 : 0 + length bytes ≡ length bytes = omega arith in
    let all : take (length bytes) (overwrite mem 0 bytes) ≡ bytes =
      rw size0 at (take-overwrite mem 0 bytes (omega (arith, size))) in
    (b, rw (end, fits) refl, rw n all, refl)

pub restored_mbuf-contents :
    (m : Mbuf) (now : ℕ)
    → IsValid m
    → (contents (restored_mbuf m now) ≡ contents m) × ((restored_mbuf m now).msg_id ≡ m.msg_id)
unfolding restored_mbuf contents count
restored_mbuf-contents m now v =
    let n = m.write_pos - m.read_pos in
    let bytes = take n (drop m.read_pos m.mem) in
    let wide : (m.write_pos + 2 ^ 32 - m.read_pos) % 2 ^ 32 ≡ n =
      omega (arith, v.ordered, v.within, v.small) in
    let left = length-drop m.read_pos m.mem in
    let size : length bytes ≡ n =
      length-take n (drop m.read_pos m.mem) (omega (arith, left, v.ordered, v.within)) in
    let zeros = length-replicate n 0 in
    let (b, ran, holds, named) =
      copy-init (replicate n 0) bytes now m.msg_id (zeros ∙ sym size)
        (omega (arith, zeros, v.within, v.small)) in
    let fresh : Mbuf = record (init (replicate n 0) now) { msg_id = m.msg_id } in
    let here : restored_mbuf m now ≡ b =
      ap (λ (o : Option Mbuf). elim o as (λ _. Mbuf) [ none ↦ fresh | some r ↦ r ]) ran in
    (
      ap contents here ∙ holds ∙ ap (λ (k : ℕ). take k (drop m.read_pos m.mem)) (sym wide),
      ap Mbuf.msg_id here ∙ named,
    )

-- msgpack unpacks a buffer that it packed.
abbrev pub PacksMbuf : Format → Type 0
PacksMbuf format = (m : Mbuf) → format.unpack_mbuf (format.pack_mbuf m) ≡ some m

pub restore_mbuf-IsValid :
    (m : Mbuf) (w : World)
    → IsValid m
    → restore_mbuf m w
      ≡ some (length w.mbufs, record w { mbufs = w.mbufs ++ restored_mbuf m w.now ∷ [] })
unfolding restore_mbuf
restore_mbuf-IsValid m w v =
    let lo : leb m.read_pos m.write_pos ≡ true = ground (arith, v.ordered) in
    let hi : leb m.write_pos (length m.mem) ≡ true = ground (arith, v.within) in rw (lo, hi) refl

pub restore_db_msg-pack :
    (sys : Kernel) (format : Format) (m : Mbuf) (tmp : TmpDb) (w : World)
    → PacksMbuf format
    → IsValid m
    → m.msg_id ≢ 0
    → restore_db_msg sys format (format.pack_mbuf m) tmp w
      ≡ some (
        assign m.msg_id (length w.mbufs) tmp,
        record w {
          mbufs = w.mbufs ++ restored_mbuf m w.now ∷ [];
          store = add_msg w.store m.msg_id (some (length w.mbufs)) w.now;
        },
      )
unfolding restore_db_msg
restore_db_msg-pack sys format m tmp w back v named =
    let id : (m.msg_id == 0) ≡ false = ground (arith, named) in
    ground (arith, back m, restore_mbuf-IsValid m w v, id)
