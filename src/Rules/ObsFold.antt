-- ===== src/Rules/ObsFold.antt =====
-- `remove_obs_fold` of src/rfc/detail/rules.cpp, on the octets of [it, end).
use http_proto.Base.{Bool, ◌≡◌, refl, ◌&&◌, [], ◌∷◌, arith, ◌==◌, if◌then◌else◌, Bytes, length}
use http_proto.Rfc.Chars.{ws}

-- At a CR the loop stops if fewer than three octets are left.
unfoldable pub remove_obs_fold : Bytes → Bytes
remove_obs_fold [] = []
remove_obs_fold (c ∷ []) = c ∷ []
remove_obs_fold (c ∷ d ∷ []) = c ∷ d ∷ []
remove_obs_fold (c ∷ d ∷ e ∷ it) =
    let skipped = remove_obs_fold it in
    let next = remove_obs_fold (d ∷ e ∷ it) in
    if c == b'\r' && (d == b'\n' && ws e) then b' ' ∷ b' ' ∷ e ∷ skipped else c ∷ next

pub length-remove_obs_fold : (s : Bytes) → length (remove_obs_fold s) ≡ length s
unfolding remove_obs_fold
length-remove_obs_fold [] = refl
length-remove_obs_fold (c ∷ []) = refl
length-remove_obs_fold (c ∷ d ∷ []) = refl
length-remove_obs_fold (c ∷ d ∷ e ∷ it) =
    ground (arith, length-remove_obs_fold it, length-remove_obs_fold (d ∷ e ∷ it))

-- The octets of a value that the container stores.
abbrev pub stored : Bool → Bytes → Bytes
stored has_obs_fold value = if has_obs_fold then remove_obs_fold value else value
