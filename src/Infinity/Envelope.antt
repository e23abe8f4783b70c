-- ===== src/Infinity/Envelope.antt =====
-- The first half of infinity.c, a variant of caustic.c: the two objects that it appends to a report,
-- with the buffer and the escaping of caustic.c, whose functions it calls.
pub mod Members
use ryzen_build.Base.{ℕ, ◌*◌, u64, bit_xor, bytes, hex_loop, List, [], ◌∷◌, ◌++◌}
use ryzen_build.Caustic.StrBuf.{StrBuf, Memory, Append}
use ryzen_build.Caustic.Payload.{Piece, literal, boolean, quoted, append_all}
use ryzen_build.Infinity.ReportConfig.{Config}

unfoldable pub fnv_loop : ℕ → List ℕ → ℕ
fnv_loop h [] = h
fnv_loop h (x ∷ rest) = fnv_loop (u64 (bit_xor h x * 1099511628211)) rest

unfoldable pub fnv1a64 : List ℕ → ℕ
fnv1a64 data_bytes = fnv_loop 1469598103934665603 data_bytes

-- `0x%016llx`
abbrev pub hex_text : ℕ → List ℕ
hex_text h = bytes "0x" ++ hex_loop 16 h []

unfoldable pub envelope_pieces : Config → ℕ → List Piece
envelope_pieces cfg anchor_hash =
    literal (bytes "\"blockchain\":{")
    ∷ boolean (bytes "\"enabled\":") cfg.blockchain_mode (bytes ",")
    ∷ literal (bytes "\"namespace\":")
    ∷ quoted cfg.chain_namespace
    ∷ literal (bytes ",")
    ∷ literal (bytes "\"chain_id\":")
    ∷ quoted cfg.chain_id
    ∷ literal (bytes ",")
    ∷ literal (bytes "\"anchor_mode\":\"geth-compatible\",")
    ∷ literal (bytes "\"anchor_hash_fnv64\":\"" ++ (hex_text anchor_hash ++ bytes "\","))
    ∷ literal (bytes "\"signing_mode\":\"ethereum_personal_sign_compatible\",")
    ∷ literal (bytes "\"rpc_url\":")
    ∷ quoted cfg.geth_rpc_url
    ∷ literal (bytes ",")
    ∷ literal (bytes "\"contract_address\":")
    ∷ quoted cfg.contract_address
    ∷ literal (bytes "}")
    ∷ []

unfoldable pub append_blockchain_envelope : Memory → Config → List ℕ → StrBuf → Append
append_blockchain_envelope m cfg payload_json sb =
    append_all m (envelope_pieces cfg (fnv1a64 payload_json)) sb

abbrev pub contract_of : List ℕ → List ℕ
contract_of [] = bytes "0x0000000000000000000000000000000000000000"
contract_of (c ∷ rest) = c ∷ rest

abbrev pub note : List ℕ
note =
    bytes
      "Replace data with ABI-encoded calldata or use personal_sign/account_signData on the anchor payload."

unfoldable pub stub_pieces : Config → ℕ → List Piece
stub_pieces cfg anchor_hash =
    literal (bytes "\"jsonrpc_stub\":{")
    ∷ literal (bytes "\"jsonrpc\":\"2.0\",")
    ∷ literal (bytes "\"id\":1,")
    ∷ literal (bytes "\"method\":\"eth_call\",")
    ∷ literal (bytes "\"params\":[{")
    ∷ literal (bytes "\"to\":")
    ∷ quoted (contract_of cfg.contract_address)
    ∷ literal (bytes ",")
    ∷ literal (bytes "\"data\":")
    ∷ quoted (bytes "0x.MNTN_PLACEHOLDER_CALLDATA")
    ∷ literal (bytes "},\"latest\"],")
    ∷ literal (bytes "\"note\":")
    ∷ quoted note
    ∷ literal (bytes ",")
    ∷ literal (bytes "\"anchor_hash_fnv64\":\"" ++ (hex_text anchor_hash ++ bytes "\""))
    ∷ literal (bytes "}")
    ∷ []

unfoldable pub append_jsonrpc_stub : Memory → Config → List ℕ → StrBuf → Append
append_jsonrpc_stub m cfg payload_json sb = append_all m (stub_pieces cfg (fnv1a64 payload_json)) sb
