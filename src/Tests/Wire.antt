-- ===== src/Tests/Wire.antt =====
-- Conversions and messages in buffers.
use deamon.Common.{
  ◌+◌, ◌-◌, ◌*◌, ◌/◌, ◌%◌, ◌^◌, ◌≡◌, refl, [], ◌∷◌, ◌++◌, arith, replicate, some, true,
}
use deamon.Common.Outcome.{ok, fault, out_of_bounds}
use deamon.Host.{little, big, hton_int64, ntoh_int64, value_of, bytes_of}
use deamon.Host.Laws.{wire16, wire32}
use deamon.Host.Words.{wire64}
use deamon.Host.Lost.{int64_lost}
use deamon.Buf.{Buf}
use deamon.Buf.Cursor.{Ready}
use deamon.Protocol.{SkrumMsg, to, unpack_msg, skrum_free_msg_members, skrum_msg_t_init}
use deamon.Protocol.Wire.{wire_msg}
use deamon.Protocol.Unpack.{unpack_msg-Ready}
use deamon.Protocol.Free.{free-unpack_msg}
use deamon.Protocol.Malformed.{unpack_msg_overflow}
use deamon.Tests.Messages.{info_msg, info_body, info_msg-IsMsg}

-- 20 January 2038, past the range of int32_t, and one second before 1970.
int64_lost_example :
    (ntoh_int64 little (value_of little (wire64 2147558400))
      ≡ (2 ^ 32 - 1) * 2 ^ 32 + 2147558400 % 2 ^ 32)
    × (bytes_of little 8 (hton_int64 little (2 ^ 64 - 1))
        ≡ wire32 ((2 ^ 64 - 1) / 2 ^ 32) ++ wire32 (2 ^ 32 - 1))
int64_lost_example =
    int64_lost 2147558400 (2 ^ 64 - 1) (omega arith) (omega arith) (omega arith) (omega arith)

-- The message as it arrives, with two bytes behind it.
abbrev arrived : Buf
arrived = record { head = wire_msg info_msg info_body ++ (1 ∷ 2 ∷ []); size = 38; processed = 0 }

arrived-Ready : Ready arrived (wire_msg info_msg info_body ++ (1 ∷ 2 ∷ []))
arrived-Ready = record {
  valid = record { block = refl; inside = omega arith; small = omega arith };
  ahead = refl;
}

unpack_msg-Ready_example :
    (b' : Buf) × (unpack_msg little 9 skrum_msg_t_init arrived
      ≡ ok (
        0,
        record skrum_msg_t_init {
          msg_type = info_msg.msg_type;
          orig_addr = info_msg.orig_addr;
          data_ptr = to info_body;
        },
        b',
      ))
    × Ready b' (wire32 info_msg.data_size ++ (1 ∷ 2 ∷ []))
unpack_msg-Ready_example =
    unpack_msg-Ready little 9 skrum_msg_t_init info_msg info_body arrived (1 ∷ 2 ∷ [])
      info_msg-IsMsg refl arrived-Ready

abbrev info_received : SkrumMsg
info_received = record skrum_msg_t_init {
  msg_type = info_msg.msg_type;
  orig_addr = info_msg.orig_addr;
  data_ptr = to info_body;
}

free-unpack_msg_example : skrum_free_msg_members (some info_received) ≡ ok true
free-unpack_msg_example =
    free-unpack_msg little 9 skrum_msg_t_init arrived unpack_msg-Ready_example.1

-- A sin_zero of 16 bytes.
abbrev overlong : Buf
overlong = record {
  head =
      wire16 0
      ++ (wire16 2 ++ (wire16 9 ++ (wire32 9 ++ (wire32 16 ++ (replicate 16 7 ++ (1 ∷ 2 ∷ []))))));
  size = 32;
  processed = 0;
}

unpack_msg_overflow_example : unpack_msg big 9 skrum_msg_t_init overlong ≡ fault out_of_bounds
unpack_msg_overflow_example =
    unpack_msg_overflow big 9 skrum_msg_t_init overlong 0 2 9 9 16 (replicate 16 7) (1 ∷ 2 ∷ [])
      (omega arith) (omega arith) (omega arith) (omega arith) (omega arith) refl refl (omega arith)
      (record {
        valid = record { block = refl; inside = omega arith; small = omega arith };
        ahead = refl;
      })
