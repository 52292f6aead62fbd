-- ===== src/Utils/Hash.antt =====
-- Revision hashes on objects: `EqualToRevisionHash`, `WriteRevisionHash` and `GetShortHash` of
-- internal/utils/inplaceu_utils.go. An object is taken by its labels.
pub mod Labels
use inplaceu.Base.{
  Bool, true, Option, none, some, [], Text, text_eq, Dict, lookup, insert, split, last_or, ◌==◌,
  if◌then◌else◌,
}
use inplaceu.Api.{controller_revision_hash_label_key, default_deployment_unique_label_key}

-- A read of a map of strings: the empty string where the key is missing.
abbrev pub text_or_empty : Option Text → Text
text_or_empty none = []
text_or_empty (some t) = t

unfoldable pub get_short_hash : Text → Text
get_short_hash hash = last_or [] (split hash b'-')

unfoldable pub equal_to_revision_hash : Dict Text Text → Text → Bool
equal_to_revision_hash labels hash =
    let obj_hash = text_or_empty (lookup controller_revision_hash_label_key labels) in
    if obj_hash == hash then true else get_short_hash hash == get_short_hash obj_hash

unfoldable pub write_revision_hash : Dict Text Text → Text → Dict Text Text
write_revision_hash labels hash =
    insert default_deployment_unique_label_key (get_short_hash hash)
      (insert controller_revision_hash_label_key hash labels)
