-- ===== src/Msg/Append.antt =====
-- Writes one after the other: each adds its bytes to those written before.
use mqtt_server.Prelude.{ℕ, ◌+◌, ◌≤◌, ◌<◌, ◌^◌, ◌≡◌, ap, ◌∙◌, arith, List, [], ◌∷◌, ◌++◌, length}
use mqtt_server.Pkt.{Pkt, ok, write_byte, write_bytes, write_short, write_string}
use mqtt_server.Pkt.Read.{short_bytes, string_bytes}
use mqtt_server.Pkt.Fill.{Room, Room-fill, Room-le, fill, fill-fill}
use mqtt_server.Pkt.Write.{write_byte-Room, write_bytes-Room, write_short-Room, write_string-Room}

module _ {p : Pkt} (xs : List ℕ) {n : ℕ} (r : Room p n) where
  pub then_byte :
      (v : ℕ) → length xs + 1 ≤ n → write_byte (fill p xs) v ≡ ok (fill p (xs ++ v ∷ []))
  then_byte v h =
      write_byte-Room v (Room-fill xs (Room-le h r))
      ∙ ap ok (fill-fill p xs (v ∷ []) (Room-le (omega arith) r))

  pub then_bytes :
      (bs : List ℕ)
      → length xs + length bs ≤ n
      → write_bytes (fill p xs) bs ≡ ok (fill p (xs ++ bs))
  then_bytes bs h =
      write_bytes-Room bs (Room-fill xs (Room-le h r))
      ∙ ap ok (fill-fill p xs bs (Room-le (omega arith) r))

  pub then_short :
      (v : ℕ)
      → v < 2 ^ 16
      → length xs + 2 ≤ n
      → write_short (fill p xs) v ≡ ok (fill p (xs ++ short_bytes v))
  then_short v hv h =
      write_short-Room v hv (Room-fill xs (Room-le h r))
      ∙ ap ok (fill-fill p xs (short_bytes v) (Room-le (omega arith) r))

  pub then_string :
      (s : List ℕ)
      → length s < 2 ^ 16
      → length xs + (2 + length s) ≤ n
      → write_string (fill p xs) s ≡ ok (fill p (xs ++ string_bytes s))
  then_string s hs h =
      write_string-Room s hs (Room-fill xs (Room-le h r))
      ∙ ap ok (fill-fill p xs (string_bytes s) (Room-le (omega arith) r))
