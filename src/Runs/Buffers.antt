-- ===== src/Runs/Buffers.antt =====
-- Packets, message buffers and the store at small data.
use mqtt_server.Prelude.{
  ltb, ℕ, ◌+◌, ◌≤◌, ◌<◌, ◌^◌, ◌≡◌, refl, arith, List, [], ◌∷◌, ◌++◌, length, ltb, ◌==◌,
  if◌then◌else◌,
}
use mqtt_server.Pkt.{
  Pkt, ok, failure, need_more_data, framed, refused, new_pkt, remain_length, scan,
  write_remain_length,
}
use mqtt_server.Pkt.Fill.{fill}
use mqtt_server.Pkt.RemainLength.{remain_bytes, groups, write_remain_length-Room}
use mqtt_server.Pkt.Framing.{remain_length-remain_bytes, remain_length-lt, remain_length_stale}
use mqtt_server.Msg.{encode_header, decode_header}
use mqtt_server.Msg.Header.{decode_header-encode_header}
use mqtt_server.Mbuf.{Mbuf, count, contents}
use mqtt_server.Mbuf.Laws.{IsValid}
use mqtt_server.MsgStore.{MsgStat, StatTable}
use mqtt_server.Runs.Codec.{publish_header, buffer}

decode_header-encode_header_example :
    (decode_header (encode_header publish_header) ≡ publish_header)
    × (encode_header publish_header < 256)
decode_header-encode_header_example = decode_header-encode_header publish_header (omega arith)

remain_length-remain_bytes_example : remain_length (0x30 ∷ remain_bytes 300 ++ (1 ∷ 2 ∷ [])) 5 ≡ (
    if ltb 5 (1 + length (remain_bytes 300) + 300)
    then refused need_more_data
    else framed 300 (length (remain_bytes 300)))
remain_length-remain_bytes_example =
    remain_length-remain_bytes 300 0x30 (1 ∷ 2 ∷ []) 5 (omega arith)

framed_puback : remain_length (0x40 ∷ 2 ∷ 0 ∷ 7 ∷ []) 4 ≡ framed 2 1
unfolding remain_length scan
framed_puback = refl

remain_length-lt_example : (2 < 2 ^ 14) × (2 + 1 + 1 ≤ 4)
remain_length-lt_example = remain_length-lt (0x40 ∷ 2 ∷ 0 ∷ 7 ∷ []) 4 2 1 framed_puback

remain_length_stale_example : remain_length (0x30 ∷ 128 ∷ 128 ∷ 128 ∷ 128 ∷ []) 2 ≡ refused failure
remain_length_stale_example = remain_length_stale 2 0x30 128 128 128 128 [] (
  (omega arith, omega arith),
  ((omega arith, omega arith), ((omega arith, omega arith), ((omega arith, omega arith), tt))),
)

remain_bytes_size : length (remain_bytes 300) ≡ 2
unfolding remain_bytes groups
remain_bytes_size = refl

write_remain_length-Room_example :
    write_remain_length buffer 300 ≡ ok (length (remain_bytes 300), fill buffer (remain_bytes 300))
write_remain_length-Room_example =
    write_remain_length-Room {p = buffer} 300 (omega arith)
      (record {
        fits = omega (arith, remain_bytes_size);
        small = omega arith;
        backed = omega arith;
      })
      (omega arith)

abbrev cut : Pkt
cut = new_pkt (0 ∷ 3 ∷ 97 ∷ []) 3

abbrev half_full : Mbuf
half_full = record {
  mem = 1 ∷ 2 ∷ 3 ∷ 0 ∷ [];
  msg_type = 1;
  read_pos = 1;
  write_pos = 3;
  msg_id = 0;
  time = 0;
}

half_full-IsValid : IsValid half_full
half_full-IsValid = record { ordered = omega arith; within = omega arith; small = omega arith }

abbrev nine : List ℕ
nine = 9 ∷ []

half_full_size : length (contents half_full) ≡ 2
unfolding contents count
half_full_size = refl

abbrev old_entry : MsgStat
old_entry = record {
  msg_id = 3;
  pub_start = 100;
  pub_end = 101;
  pub_online_num = 2;
  pub_offline_num = 1;
  min_delay = 0;
  max_delay = 0;
  ack_client = 2;
}

abbrev old_table : StatTable
old_table j = if j == 3 then old_entry else record old_entry { msg_id = 0 }
