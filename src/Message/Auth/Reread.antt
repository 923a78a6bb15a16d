-- ===== src/Message/Auth/Reread.antt =====
-- The names of mechanisms (imap-types/src/auth.rs) and of the extensions of
-- imap-types/src/extensions, displayed and read again.
use imap_codec.Prelude.{◌≡◌, refl, ok}
use imap_codec.Indicators.{
  is_atom_char, is_atom_specials, is_char, is_ctl, is_list_wildcards, is_quoted_specials,
  is_resp_specials,
}
use imap_codec.Core.Atom
use imap_codec.Core.Atom.{Atom}
use imap_codec.Core.Validation.{validate_nonempty, validate_bytes, position}
use imap_codec.Message.Auth
use imap_codec.Message.Extensions.{
  Resource, resource_names, resource_from, display_resource, SortAlgorithm, sort_algorithm_names,
  sort_algorithm_from, display_sort_algorithm, ThreadingAlgorithm, threading_names, threading_from,
  display_threading,
}
use imap_codec.Message.Names.{keyword, to_ascii_uppercase, to_ascii_lowercase}
use imap_codec.Message.Names.Reread.{IsReread, reading-IsReread}

module _ (a : Atom) (accepted : Atom.try_from a.inner ≡ ok a) where
  pub auth-IsReread : IsReread Auth.from Auth.as_ref (Auth.from a)
  unfolding keyword to_ascii_uppercase Atom.try_from Atom.validate validate_nonempty validate_bytes
      position is_atom_char is_atom_specials is_char is_ctl is_list_wildcards is_quoted_specials
      is_resp_specials Auth.as_ref Auth.from
  auth-IsReread =
      reading-IsReread to_ascii_uppercase Auth.names Auth.other Auth.as_ref a accepted refl (
        (refl, refl),
        (
          (refl, refl),
          (
            (refl, refl),
            ((refl, refl), ((refl, refl), ((refl, refl), ((refl, refl), ((refl, refl), tt))))),
          ),
        ),
      )

  pub resource-IsReread : IsReread resource_from display_resource (resource_from a)
  unfolding keyword to_ascii_uppercase Atom.try_from Atom.validate validate_nonempty validate_bytes
      position is_atom_char is_atom_specials is_char is_ctl is_list_wildcards is_quoted_specials
      is_resp_specials display_resource resource_from
  resource-IsReread =
      reading-IsReread to_ascii_uppercase resource_names Resource.other display_resource a accepted
        refl ((refl, refl), ((refl, refl), ((refl, refl), ((refl, refl), tt))))

  pub sort_algorithm-IsReread :
      IsReread sort_algorithm_from display_sort_algorithm (sort_algorithm_from a)
  unfolding keyword to_ascii_lowercase Atom.try_from Atom.validate validate_nonempty validate_bytes
      position is_atom_char is_atom_specials is_char is_ctl is_list_wildcards is_quoted_specials
      is_resp_specials display_sort_algorithm sort_algorithm_from
  sort_algorithm-IsReread =
      reading-IsReread to_ascii_lowercase sort_algorithm_names SortAlgorithm.other
        display_sort_algorithm a accepted refl ((refl, refl), tt)

  pub threading-IsReread : IsReread threading_from display_threading (threading_from a)
  unfolding keyword to_ascii_lowercase Atom.try_from Atom.validate validate_nonempty validate_bytes
      position is_atom_char is_atom_specials is_char is_ctl is_list_wildcards is_quoted_specials
      is_resp_specials display_threading threading_from
  threading-IsReread =
      reading-IsReread to_ascii_lowercase threading_names ThreadingAlgorithm.other display_threading
        a accepted refl ((refl, refl), ((refl, refl), tt))

  -- A name of a resource in lower case.
  pub lowercase_resource-IsReread :
      to_ascii_lowercase a.inner ≡ a.inner
      → IsReread resource_from (λ r. to_ascii_lowercase (display_resource r)) (resource_from a)
  unfolding keyword to_ascii_uppercase to_ascii_lowercase Atom.try_from Atom.validate
      validate_nonempty validate_bytes position is_atom_char is_atom_specials is_char is_ctl
      is_list_wildcards is_quoted_specials is_resp_specials display_resource resource_from
  lowercase_resource-IsReread lower =
      reading-IsReread to_ascii_uppercase resource_names Resource.other
        (λ r. to_ascii_lowercase (display_resource r)) a accepted lower
        ((refl, refl), ((refl, refl), ((refl, refl), ((refl, refl), tt))))
