-- ===== src/Cidr.antt =====
-- `pod_cidr_to_prefix` of src/node/agent.rs and `service_cidr_prefix` of src/server/api.rs.
use superkube.Base.{
  ℕ, String, Option, none, List, [], ◌∷◌, if◌then◌else◌, append, split_at, all, is_some, codes, eqb,
}
use superkube.Scheduler.Quantity.{number}

-- `parse::<u8>`, of the code points.
unfoldable pub parse_u8 : List ℕ → Option ℕ
unfolding number
parse_u8 [] = none
parse_u8 (c ∷ cs) = if eqb c b'+' then number 255 cs else number 255 (c ∷ cs)

-- The first three octets of a CIDR; `fallback` where its address is not four octets.
unfoldable pub cidr_to_prefix : String → List String → String
unfolding parse_u8
cidr_to_prefix fallback (a ∷ b ∷ c ∷ d ∷ []) =
    if all (λ s. is_some (parse_u8 (codes s))) (a ∷ b ∷ c ∷ d ∷ [])
    then append a (append "." (append b (append "." c)))
    else fallback
cidr_to_prefix fallback _ = fallback

-- `cidr.split('/').next().unwrap_or(cidr)`.
abbrev pub addr_part : String → List String → String
addr_part cidr [] = cidr
addr_part cidr (part ∷ parts) = part

unfoldable pub pod_cidr_to_prefix : String → String
unfolding cidr_to_prefix
pod_cidr_to_prefix cidr =
    cidr_to_prefix "10.244.0" (split_at b'.' (addr_part cidr (split_at b'/' cidr)))

unfoldable pub service_cidr_prefix : String → String
unfolding cidr_to_prefix
service_cidr_prefix cidr =
    cidr_to_prefix "10.96.0" (split_at b'.' (addr_part cidr (split_at b'/' cidr)))
