-- ===== src/Llc/Tests.antt =====
-- The theorems about sw/llc at concrete inputs.
use tetra_bs.Prelude.{
  List, ℕ, ◌<◌, ◌≡◌, inr, refl, true, false, some, ◌∷◌, replicate, drop, get_or, set, All-replicate,
  ok, arith,
}
use tetra_bs.Core.MsgBus.{zero_entry, zero_reg}
use tetra_bs.Core.BitBuffer.{BitBuffer}
use tetra_bs.Core.BitBuffer.Cursor.{IsValid}
use tetra_bs.Core.BitBuffer.Codec.{done}
use tetra_bs.Core.BitBuffer.Codec.Runs.{rewound}
use tetra_bs.Llc.{LlcPdu, TleLayout}
use tetra_bs.Llc.Pdu.{
  llc_pdu_encode, llc_pdu_decode, llc_pdu_type_is_valid, llc_pdu_type_has_nr, llc_pdu_type_has_ns,
  llc_pdu_type_has_fcs,
}
use tetra_bs.Llc.Pdu.Layout.{IsLlcPdu, total}
use tetra_bs.Llc.Pdu.Encoding.{Encoded, llc_pdu_encode-Encoded}
use tetra_bs.Llc.Pdu.RoundTrip.{received, llc_pdu_decode-llc_pdu_encode}
use tetra_bs.Llc.Links.{zero_endpoint, TmaUnitdata, TmaLayout, LlcWorld, endpoint_at, endpoint_find}
use tetra_bs.Llc.Links.Intake.{receive, llc_handle_tma_unitdata_ind}
use tetra_bs.Llc.Links.Total.{Returns, llc_handle_tma_unitdata_ind-Returns}
use tetra_bs.Llc.Links.Answering.{IsStack, IsAnswered}
use tetra_bs.Llc.Links.Receive.{delivered, advanced_endpoint, receive_once}

abbrev room : BitBuffer
room = record {
  buffer = replicate 40 0;
  cap_bits = 320;
  start = 0;
  pos = 0;
  end = 0;
  autoexpand = true;
}

room-IsValid : IsValid room
room-IsValid = record {
  bytes = All-replicate (λ b. b < 256) 40 0 (omega arith);
  start_le = omega arith;
  pos_le = omega arith;
  end_le = omega arith;
  memory = omega arith;
  addressable = omega arith;
}

-- A BL-ADATA with a checksum and 12 bits of body.
abbrev adata : LlcPdu
adata = record {
  pdu_type = 4;
  nr = 1;
  ns = 0;
  body_len_bits = 12;
  body = 0xab ∷ 0xcd ∷ replicate 30 0;
  fcs = 0;
  fcs_valid = false;
}

abbrev empty : LlcPdu
empty = record {
  pdu_type = 0;
  nr = 0;
  ns = 0;
  body_len_bits = 0;
  body = replicate 32 0;
  fcs = 0;
  fcs_valid = false;
}

adata-IsLlcPdu : IsLlcPdu adata
unfolding llc_pdu_type_is_valid
adata-IsLlcPdu = record {
  known = refl;
  small = omega arith;
  fits = omega arith;
  bytes = (omega arith, (omega arith, All-replicate (λ b. b < 256) 30 0 (omega arith)));
  whole = refl;
  bare = λ e. absurd (omega arith);
}

llc_pdu_encode-Encoded_example :
    (bb' : BitBuffer) × (crc : ℕ) × (llc_pdu_encode adata room ≡ done (total adata) bb')
    × Encoded adata room bb' crc
unfolding llc_pdu_type_has_nr llc_pdu_type_has_ns llc_pdu_type_has_fcs
llc_pdu_encode-Encoded_example =
    llc_pdu_encode-Encoded adata room adata-IsLlcPdu room-IsValid (inr (refl, omega arith))

llc_pdu_decode-llc_pdu_encode_example :
    (bb' : BitBuffer) × (crc : ℕ) × (llc_pdu_encode adata room ≡ done (total adata) bb')
    × (llc_pdu_decode (record empty { body_len_bits = 12 }) (rewound bb' 0)
        ≡ done (received empty adata crc) bb')
unfolding llc_pdu_type_has_nr llc_pdu_type_has_ns llc_pdu_type_has_fcs
llc_pdu_decode-llc_pdu_encode_example =
    llc_pdu_decode-llc_pdu_encode adata empty room adata-IsLlcPdu room-IsValid
      (inr (refl, omega arith))

-- Structures as lists of numbers, one for each field and one for each byte.
abbrev tma_fields : TmaLayout
tma_fields = record {
  bytes =
      λ m. m.endpoint ∷ m.addr.ssi ∷ m.addr.ssi_type ∷ m.req_handle ∷ m.sdu_len_bits ∷ m.sdu_bits;
  size = 69;
  message = λ bs. record {
    endpoint = get_or bs 0 0;
    addr = record { ssi = get_or bs 1 0; ssi_type = get_or bs 2 0 };
    req_handle = get_or bs 3 0;
    sdu_len_bits = get_or bs 4 0;
    sdu_bits = drop 5 bs;
  };
}

abbrev tle_fields : TleLayout
tle_fields = record {
  bytes = λ m.
      m.endpoint ∷ m.addr.ssi ∷ m.addr.ssi_type ∷ m.pdu.pdu_type ∷ m.pdu.body_len_bits ∷ m.pdu.body;
  size = 37;
  message = λ bs. record {
    endpoint = get_or bs 0 0;
    addr = record { ssi = get_or bs 1 0; ssi_type = get_or bs 2 0 };
    pdu = record empty {
      pdu_type = get_or bs 3 0;
      body_len_bits = get_or bs 4 0;
      body = drop 5 bs;
    };
  };
}

-- An entity with the endpoint 3, which expects the number 1, on a bus with room for four messages of
-- each priority.
abbrev world : LlcWorld
world = record {
  llc = record {
    max_retx = 3;
    endpoints =
        record zero_endpoint { id = 3; in_use = true; nr_expected = 1 } ∷ replicate 7 zero_endpoint;
    stats = record {
      pdus_rx = 4;
      pdus_tx = 2;
      fcs_failures = 0;
      retx_total = 0;
      unknown_pdu_type = 0;
    };
    initialised = true;
  };
  bus = record {
    queues = replicate 3 (record {
      entries = replicate 4 zero_entry;
      payloads = replicate 320 0;
      cap = 4;
      max_payload = 80;
      head = 0;
      tail = 0;
      count = 0;
      drops = 0;
    });
    regs = replicate 32 zero_reg;
    reg_count = 0;
    initialised = true;
  };
  handles = 7;
}

abbrev indication : TmaUnitdata
indication = record {
  endpoint = 3;
  addr = record { ssi = 0x282ff4; ssi_type = 1 };
  req_handle = 0;
  sdu_len_bits = 13;
  sdu_bits = 0x1d ∷ 0x58 ∷ replicate 62 0;
}

-- A BL-DATA with the number 1
abbrev data_one : LlcPdu
data_one = record empty { pdu_type = 1; ns = 1; body_len_bits = 8; body = 0xab ∷ replicate 31 0 }

abbrev cells : List ℕ
cells = replicate 8 0xcc

cells-IsStack : IsStack cells
cells-IsStack = (All-replicate (λ b. b < 256) 8 0xcc (omega arith), refl)

-- The world some time later, with the table as the message left it.
abbrev later : LlcWorld
later = record world {
  llc = record world.llc {
    endpoints = set world.llc.endpoints 0 (advanced_endpoint (endpoint_at world.llc 0));
  };
  handles = 9;
}

receive_once_example :
    (st after : LlcWorld) × (receive tma_fields tle_fields world indication data_one 0 cells
      ≡ some (st, ok tt))
    × IsAnswered tma_fields tle_fields
        (delivered tma_fields tle_fields world indication data_one 0)
        indication
        0
        cells
        st
    × (st.llc.endpoints ≡ set world.llc.endpoints 0 (advanced_endpoint (endpoint_at world.llc 0)))
    × (receive tma_fields tle_fields later indication data_one 0 cells ≡ some (after, ok tt))
    × IsAnswered tma_fields tle_fields later indication 0 cells after
    × (after.llc.endpoints ≡ later.llc.endpoints)
unfolding endpoint_find
receive_once_example =
    receive_once tma_fields tle_fields world later indication data_one 0 cells refl refl
      cells-IsStack refl (omega arith) refl

llc_handle_tma_unitdata_ind-Returns_example :
    Returns (llc_handle_tma_unitdata_ind tma_fields tle_fields world indication cells)
llc_handle_tma_unitdata_ind-Returns_example =
    llc_handle_tma_unitdata_ind-Returns tma_fields tle_fields world indication cells
      ((omega arith, (omega arith, All-replicate (λ b. b < 256) 62 0 (omega arith))), refl)
      cells-IsStack
