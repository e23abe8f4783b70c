-- ===== src/Infinity/Envelope/Members.antt =====
-- The two objects that the first half of infinity.c appends, as members of a JSON object.
use ryzen_build.Base.{ℕ, ltb, leb, bytes}
use ryzen_build.Base.{Bool, true, List, [], ◌∷◌, ◌++◌, ◌&&◌, ◌||◌}
use ryzen_build.Json.{
  Value, text, integer, truth_of, object, array, Fields, no_field, field, no_item, item, IsFields,
}
use ryzen_build.Caustic.StrBuf.{StrBuf, Append, appended, died, endless}
use ryzen_build.Caustic.StrBuf.Appends.{Holds}
use ryzen_build.Infinity.ReportConfig.{Config}
use ryzen_build.Infinity.Envelope.{hex_text, contract_of, note}

-- Characters that a string holds as they are.
abbrev all_plain : List ℕ → Bool
all_plain [] = true
all_plain (c ∷ rest) = leb 48 c && (ltb c 91 || (leb 97 c && ltb c 123)) && all_plain rest

-- What the two objects are, by their names.
abbrev pub envelope : Config → ℕ → Fields
envelope cfg h =
    field (bytes "blockchain")
      (object (
        field (bytes "enabled") (truth_of cfg.blockchain_mode) (
          field (bytes "namespace") (text cfg.chain_namespace) (
            field (bytes "chain_id") (text cfg.chain_id) (
              field (bytes "anchor_mode") (text (bytes "geth-compatible")) (
                field (bytes "anchor_hash_fnv64") (text (hex_text h)) (
                  field (bytes "signing_mode") (text (bytes "ethereum_personal_sign_compatible")) (
                    field (bytes "rpc_url") (text cfg.geth_rpc_url) (
                      field (bytes "contract_address") (text cfg.contract_address) no_field)))))))))
      no_field

abbrev pub call : Config → Value
call cfg = object (
    field (bytes "to") (text (contract_of cfg.contract_address))
      (field (bytes "data") (text (bytes "0x.MNTN_PLACEHOLDER_CALLDATA")) no_field))

abbrev pub stub : Config → ℕ → Fields
stub cfg h =
    field (bytes "jsonrpc_stub")
      (object (
        field (bytes "jsonrpc") (text (bytes "2.0")) (
          field (bytes "id") (integer 1) (
            field (bytes "method") (text (bytes "eth_call")) (
              field (bytes "params")
                (array (item (call cfg) (item (text (bytes "latest")) no_item)))
                (field (bytes "note") (text note)
                  (field (bytes "anchor_hash_fnv64") (text (hex_text h)) no_field)))))))
      no_field

-- What stands behind `t`, after fields were appended to it.
abbrev pub HasFields : Fields → List ℕ → Append → Type 0
HasFields fs t (appended sb) = (json : List ℕ) × Holds sb (t ++ json) × IsFields fs json []
HasFields fs t died = Unit
HasFields fs t endless = Unit
