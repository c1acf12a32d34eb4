-- ===== src/Client/Discovery.antt =====
-- `_extract_discovery_info` of src/pyhems/discovery.py. A text is the list of its codes.
use pyhems.Common.{
  ltb, ◌==◌, if◌then◌else◌, select, is_empty, Result, ok, ◌>>=◌, ℕ_key, list_key, ℕ, suc, ◌+◌, ◌/◌,
  ◌%◌, not, ◌||◌, Option, none, some, List, [], ◌∷◌, ◌++◌,
}
use pyhems.Protocol.Objects.{Eoj, from_bytes, eoj_eq}
use pyhems.Protocol.Frame.{Property, Frame}

unfoldable pub hex_digit : ℕ → ℕ
hex_digit n = if ltb n 10 then 48 + n else 87 + n

-- bs.hex()
pub hex : List ℕ → List ℕ
unfolding hex_digit
hex [] = []
hex (b ∷ bs) = hex_digit (b / 16) ∷ hex_digit (b % 16) ∷ hex bs

-- The loop over `count` instances, of which the data may hold fewer.
pub listed_instances : ℕ → List ℕ → Result (List Eoj)
listed_instances (suc count) (a ∷ b ∷ c ∷ rest) =
    let others = listed_instances count rest in
    from_bytes (a ∷ b ∷ c ∷ []) >>= (λ e. others >>= (λ es. ok (e ∷ es)))
listed_instances _ _ = ok []

pub instance_list : List ℕ → Result (List Eoj)
unfolding listed_instances
instance_list [] = ok []
instance_list (count ∷ rest) = listed_instances count rest

-- The node ID and the instances, after the property.
pub read_profile_property :
    Property → Option (List ℕ) × List Eoj → Result (Option (List ℕ) × List Eoj)
unfolding hex instance_list
read_profile_property p (node_id, instances) =
    if is_empty p.edt
    then ok (node_id, instances)
    else if p.epc == 0x83
    then ok (some (hex p.edt), instances)
    else if p.epc == 0xD5 || p.epc == 0xD6
    then instance_list p.edt >>= (λ es. ok (node_id, instances ++ es))
    else ok (node_id, instances)

pub read_profile : List Property → Option (List ℕ) × List Eoj → Result (Option (List ℕ) × List Eoj)
unfolding read_profile_property
read_profile [] found = ok found
read_profile (p ∷ ps) found = read_profile_property p found >>= read_profile ps

-- list(dict.fromkeys(instances))
pub unique_instances : List Eoj → List Eoj
unfolding eoj_eq
unique_instances [] = []
unique_instances (e ∷ es) = e ∷ select (λ x. not (eoj_eq e x)) (unique_instances es)

unfoldable pub extract_discovery_info : Frame → Result (Option (List ℕ) × List Eoj)
unfolding read_profile unique_instances
extract_discovery_info frame =
    read_profile frame.properties (none, [])
    >>= (λ (node_id, instances). ok (node_id, unique_instances instances))
