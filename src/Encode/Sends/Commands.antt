-- ===== src/Encode/Sends/Commands.antt =====
-- The body of a command (imap-codec/src/codec/encode.rs).
use imap_codec.Encode.Sends.Begins.{Begins, Begins->>, Begins-write, Begins-if, Begins-Sends}
use imap_codec.Encode.Sends.Called.{called}
use imap_codec.Message.Command.{name}
use imap_codec.Prelude.{refl, none, some, List, [], ◌∷◌, ◌++◌, Bytes, Option, codes, All}
use imap_codec.Core.Charset.{Charset}
use imap_codec.Encode.Strings.{IsEncodable, IsEncodableMailbox}
use imap_codec.Encode.Patterns.{IsEncodablePattern}
use imap_codec.Encode.Writer.{if_some}
use imap_codec.Encode.Sends.{
  Sends, Sends->>, Sends-plain, Sends-skip, Sends-if_some, IfSome, Sends-join,
}
use imap_codec.Encode.Sends.Strings.{
  IsEncodableCharset, Sends-astring, Sends-mailbox, Sends-list_mailbox, Sends-charset,
}
use imap_codec.Encode.Sends.Sets.{IsPlain, All-Unit, Sends-sequence_set, plain_quoted}
use imap_codec.Encode.Sends.SearchKeys.{IsEncodableKeys, Sends-search_keys}
use imap_codec.Encode.Sends.Items.{
  IsEncodableMechanism, IsEncodableFlag, IsEncodableLiteralOr8, IsEncodableEnable,
  IsEncodableResource, IsEncodableThreading, Sends-auth_mechanism, Sends-flag, Sends-status_name,
  Sends-literal_or_literal8, Sends-compression, Sends-enable, Sends-quota_set, Sends-sort_criterion,
  Sends-threading,
}
use imap_codec.Encode.Sends.Sections.{IsEncodableMacroOrNames, Sends-macro_or_names, Sends-list}
use imap_codec.Encode.Command.{
  encode_append_flags, encode_search_charset, encode_store_type, encode_store_response,
  encode_date_time, encode_append_date, encode_initial_response, encode_command_body,
}
use imap_codec.Message.Command.{CommandBody}
use imap_codec.Message.Extensions.{QuotaSet}
use imap_codec.Message.Flag.{Flag, StoreType, replace, add, remove, StoreResponse, answer, silent}
use imap_codec.Message.Packages.{Packages}

-- The strings, mailboxes, patterns, atoms and literals of the command are those that their types
-- allow.
abbrev pub IsEncodableBody : {NaiveDate DateTime : Type 0} → CommandBody NaiveDate DateTime → Type 0
IsEncodableBody CommandBody.capability = Unit
IsEncodableBody CommandBody.noop = Unit
IsEncodableBody CommandBody.logout = Unit
IsEncodableBody (CommandBody.authenticate mechanism initial_response) =
    IsEncodableMechanism mechanism
IsEncodableBody (CommandBody.login username password) = IsEncodable username × IsEncodable password
IsEncodableBody (CommandBody.select mailbox) = IsEncodableMailbox mailbox
IsEncodableBody CommandBody.unselect = Unit
IsEncodableBody (CommandBody.examine mailbox) = IsEncodableMailbox mailbox
IsEncodableBody (CommandBody.create mailbox) = IsEncodableMailbox mailbox
IsEncodableBody (CommandBody.delete mailbox) = IsEncodableMailbox mailbox
IsEncodableBody (CommandBody.rename from to) = IsEncodableMailbox from × IsEncodableMailbox to
IsEncodableBody (CommandBody.subscribe mailbox) = IsEncodableMailbox mailbox
IsEncodableBody (CommandBody.unsubscribe mailbox) = IsEncodableMailbox mailbox
IsEncodableBody (CommandBody.list reference mailbox_wildcard) =
    IsEncodableMailbox reference × IsEncodablePattern mailbox_wildcard
IsEncodableBody (CommandBody.lsub reference mailbox_wildcard) =
    IsEncodableMailbox reference × IsEncodablePattern mailbox_wildcard
IsEncodableBody (CommandBody.status mailbox item_names) = IsEncodableMailbox mailbox
IsEncodableBody (CommandBody.append mailbox flags date message) =
    IsEncodableMailbox mailbox × All IsEncodableFlag flags × IsEncodableLiteralOr8 message
IsEncodableBody CommandBody.check = Unit
IsEncodableBody CommandBody.close = Unit
IsEncodableBody CommandBody.expunge = Unit
IsEncodableBody (CommandBody.expunge_uid sequence_set) = Unit
IsEncodableBody (CommandBody.search charset criteria uid) =
    IfSome IsEncodableCharset charset × IsEncodableKeys criteria
IsEncodableBody (CommandBody.sort sort_criteria charset search_criteria uid) =
    IsEncodableCharset charset × IsEncodableKeys search_criteria
IsEncodableBody (CommandBody.thread algorithm charset search_criteria uid) =
    IsEncodableThreading algorithm × IsEncodableCharset charset × IsEncodableKeys search_criteria
IsEncodableBody (CommandBody.fetch sequence_set macro_or_item_names uid) =
    IsEncodableMacroOrNames macro_or_item_names
IsEncodableBody (CommandBody.store sequence_set kind response flags uid) = All IsEncodableFlag flags
IsEncodableBody (CommandBody.copy sequence_set mailbox uid) = IsEncodableMailbox mailbox
IsEncodableBody CommandBody.idle = Unit
IsEncodableBody (CommandBody.enable capabilities) = All IsEncodableEnable capabilities.inner
IsEncodableBody (CommandBody.compress algorithm) = Unit
IsEncodableBody (CommandBody.get_quota root) = IsEncodable root
IsEncodableBody (CommandBody.get_quota_root mailbox) = IsEncodableMailbox mailbox
IsEncodableBody (CommandBody.set_quota root quotas) =
    IsEncodable root × All (λ q. IsEncodableResource q.resource) quotas
IsEncodableBody (CommandBody.move sequence_set mailbox uid) = IsEncodableMailbox mailbox

Sends-append_flags :
    (flags : List Flag) → All IsEncodableFlag flags → Sends (encode_append_flags flags)
unfolding encode_append_flags
Sends-append_flags [] h = Sends-skip
Sends-append_flags (flag ∷ flags) h =
    Sends-list IsEncodableFlag (codes " (") (flag ∷ flags) refl Sends-flag h

Sends-search_charset : (c : Charset) → IsEncodableCharset c → Sends (encode_search_charset c)
unfolding encode_search_charset
Sends-search_charset c h = Sends->> (Sends-plain (codes " CHARSET ") refl) (Sends-charset c h)

Sends-store_type : (kind : StoreType) → Sends (encode_store_type kind)
unfolding encode_store_type
Sends-store_type add = Sends-plain (codes "+") refl
Sends-store_type remove = Sends-plain (codes "-") refl
Sends-store_type replace = Sends-skip

Sends-store_response : (response : StoreResponse) → Sends (encode_store_response response)
unfolding encode_store_response
Sends-store_response answer = Sends-skip
Sends-store_response silent = Sends-plain (codes ".SILENT") refl

module _ {NaiveDate DateTime : Type 0} (packages : Packages NaiveDate DateTime)
    (plain : IsPlain packages) where
  pub Sends-date_time : (date : DateTime) → Sends (encode_date_time packages date)
  unfolding encode_date_time
  Sends-date_time date =
      Sends-plain (codes "\"" ++ (packages.format_date_time date ++ codes "\""))
        (plain_quoted (packages.format_date_time date) (plain.date_time_plain date))

  Sends-append_date : (date : Option DateTime) → Sends (if_some date (encode_append_date packages))
  unfolding if_some encode_append_date
  Sends-append_date none = Sends-skip
  Sends-append_date (some date) = Sends->> (Sends-plain (codes " ") refl) (Sends-date_time date)

  Sends-initial_response :
      (ir : Option Bytes) → Sends (if_some ir (encode_initial_response packages))
  unfolding if_some encode_initial_response
  Sends-initial_response none = Sends-skip
  Sends-initial_response (some []) =
      Sends->> (Sends-plain (codes " ") refl) (Sends-plain (codes "=") refl)
  Sends-initial_response (some (b ∷ ir)) =
      Sends->> (Sends-plain (codes " ") refl)
        (Sends-plain (packages.base64_encode (b ∷ ir)) (plain.base64_plain (b ∷ ir)))

  pub Begins-command_body :
      (body : CommandBody NaiveDate DateTime)
      → IsEncodableBody body
      → Begins (called body) (encode_command_body packages body)
  unfolding encode_command_body called name
  Begins-command_body CommandBody.capability h = Begins-write (codes "CAPABILITY") refl
  Begins-command_body CommandBody.noop h = Begins-write (codes "NOOP") refl
  Begins-command_body CommandBody.logout h = Begins-write (codes "LOGOUT") refl
  Begins-command_body (CommandBody.authenticate mechanism initial_response) h =
      Begins->> (codes "AUTHENTICATE") (codes " ") refl
        (Sends->> (Sends-auth_mechanism mechanism h) (Sends-initial_response initial_response))
  Begins-command_body (CommandBody.login username password) (h0, h1) =
      Begins->> (codes "LOGIN") (codes " ") refl (
        Sends->> (Sends-astring username h0)
          (Sends->> (Sends-plain (codes " ") refl) (Sends-astring password h1)))
  Begins-command_body (CommandBody.select mailbox) h =
      Begins->> (codes "SELECT") (codes " ") refl (Sends-mailbox mailbox h)
  Begins-command_body CommandBody.unselect h = Begins-write (codes "UNSELECT") refl
  Begins-command_body (CommandBody.examine mailbox) h =
      Begins->> (codes "EXAMINE") (codes " ") refl (Sends-mailbox mailbox h)
  Begins-command_body (CommandBody.create mailbox) h =
      Begins->> (codes "CREATE") (codes " ") refl (Sends-mailbox mailbox h)
  Begins-command_body (CommandBody.delete mailbox) h =
      Begins->> (codes "DELETE") (codes " ") refl (Sends-mailbox mailbox h)
  Begins-command_body (CommandBody.rename from to) (h0, h1) =
      Begins->> (codes "RENAME") (codes " ") refl (
        Sends->> (Sends-mailbox from h0)
          (Sends->> (Sends-plain (codes " ") refl) (Sends-mailbox to h1)))
  Begins-command_body (CommandBody.subscribe mailbox) h =
      Begins->> (codes "SUBSCRIBE") (codes " ") refl (Sends-mailbox mailbox h)
  Begins-command_body (CommandBody.unsubscribe mailbox) h =
      Begins->> (codes "UNSUBSCRIBE") (codes " ") refl (Sends-mailbox mailbox h)
  Begins-command_body (CommandBody.list reference mailbox_wildcard) (h0, h1) =
      Begins->> (codes "LIST") (codes " ") refl (
        Sends->> (Sends-mailbox reference h0)
          (Sends->> (Sends-plain (codes " ") refl) (Sends-list_mailbox mailbox_wildcard h1)))
  Begins-command_body (CommandBody.lsub reference mailbox_wildcard) (h0, h1) =
      Begins->> (codes "LSUB") (codes " ") refl (
        Sends->> (Sends-mailbox reference h0)
          (Sends->> (Sends-plain (codes " ") refl) (Sends-list_mailbox mailbox_wildcard h1)))
  Begins-command_body (CommandBody.status mailbox item_names) h =
      Begins->> (codes "STATUS") (codes " ") refl (
        Sends->> (Sends-mailbox mailbox h) (
          Sends->> (Sends-plain (codes " (") refl) (
            Sends->>
              (Sends-join (λ _. Unit {0}) item_names (codes " ") (λ n _. Sends-status_name n) refl
                (All-Unit item_names))
              (Sends-plain (codes ")") refl))))
  Begins-command_body (CommandBody.append mailbox flags date message) (h0, h1, h2) =
      Begins->> (codes "APPEND") (codes " ") refl (
        Sends->> (Sends-mailbox mailbox h0) (
          Sends->> (Sends-append_flags flags h1) (
            Sends->> (Sends-append_date date)
              (Sends->> (Sends-plain (codes " ") refl) (Sends-literal_or_literal8 message h2)))))
  Begins-command_body CommandBody.check h = Begins-write (codes "CHECK") refl
  Begins-command_body CommandBody.close h = Begins-write (codes "CLOSE") refl
  Begins-command_body CommandBody.expunge h = Begins-write (codes "EXPUNGE") refl
  Begins-command_body (CommandBody.expunge_uid sequence_set) h =
      Begins->> (codes "UID EXPUNGE") (codes " ") refl
        (Sends-sequence_set packages.iteration_order sequence_set)
  Begins-command_body (CommandBody.search charset criteria uid) (h0, h1) =
      Begins-if uid (codes "SEARCH") [] refl (
        Sends->> (Sends-if_some IsEncodableCharset charset Sends-search_charset h0)
          (Sends->> (Sends-plain (codes " ") refl) (Sends-search_keys packages plain criteria h1)))
  Begins-command_body (CommandBody.sort sort_criteria charset search_criteria uid) (h0, h1) =
      Begins-if uid (codes "SORT") (codes " (") refl (
        Sends->>
          (Sends-join (λ _. Unit {0}) sort_criteria.inner (codes " ")
            (λ c _. Sends-sort_criterion c) refl (All-Unit sort_criteria.inner))
          (Sends->> (Sends-plain (codes ") ") refl) (
            Sends->> (Sends-charset charset h0) (
              Sends->> (Sends-plain (codes " ") refl)
                (Sends-search_keys packages plain search_criteria h1)))))
  Begins-command_body (CommandBody.thread algorithm charset search_criteria uid) (h0, h1, h2) =
      Begins-if uid (codes "THREAD") (codes " ") refl (
        Sends->> (Sends-threading algorithm h0) (
          Sends->> (Sends-plain (codes " ") refl) (
            Sends->> (Sends-charset charset h1) (
              Sends->> (Sends-plain (codes " ") refl)
                (Sends-search_keys packages plain search_criteria h2)))))
  Begins-command_body (CommandBody.fetch sequence_set macro_or_item_names uid) h =
      Begins-if uid (codes "FETCH") (codes " ") refl (
        Sends->> (Sends-sequence_set packages.iteration_order sequence_set)
          (Sends->> (Sends-plain (codes " ") refl) (Sends-macro_or_names macro_or_item_names h)))
  Begins-command_body (CommandBody.store sequence_set kind response flags uid) h =
      Begins-if uid (codes "STORE") (codes " ") refl (
        Sends->> (Sends-sequence_set packages.iteration_order sequence_set) (
          Sends->> (Sends-plain (codes " ") refl) (
            Sends->> (Sends-store_type kind) (
              Sends->> (Sends-plain (codes "FLAGS") refl) (
                Sends->> (Sends-store_response response) (
                  Sends->> (Sends-plain (codes " (") refl) (
                    Sends->> (Sends-join IsEncodableFlag flags (codes " ") Sends-flag refl h)
                      (Sends-plain (codes ")") refl))))))))
  Begins-command_body (CommandBody.copy sequence_set mailbox uid) h =
      Begins-if uid (codes "COPY") (codes " ") refl (
        Sends->> (Sends-sequence_set packages.iteration_order sequence_set)
          (Sends->> (Sends-plain (codes " ") refl) (Sends-mailbox mailbox h)))
  Begins-command_body CommandBody.idle h = Begins-write (codes "IDLE") refl
  Begins-command_body (CommandBody.enable capabilities) h =
      Begins->> (codes "ENABLE") (codes " ") refl
        (Sends-join IsEncodableEnable capabilities.inner (codes " ") Sends-enable refl h)
  Begins-command_body (CommandBody.compress algorithm) h =
      Begins->> (codes "COMPRESS") (codes " ") refl (Sends-compression algorithm)
  Begins-command_body (CommandBody.get_quota root) h =
      Begins->> (codes "GETQUOTA") (codes " ") refl (Sends-astring root h)
  Begins-command_body (CommandBody.get_quota_root mailbox) h =
      Begins->> (codes "GETQUOTAROOT") (codes " ") refl (Sends-mailbox mailbox h)
  Begins-command_body (CommandBody.set_quota root quotas) (h0, h1) =
      Begins->> (codes "SETQUOTA") (codes " ") refl (
        Sends->> (Sends-astring root h0) (
          Sends->> (Sends-plain (codes " (") refl) (
            Sends->>
              (Sends-join (λ (q : QuotaSet). IsEncodableResource q.resource) quotas (codes " ")
                Sends-quota_set refl h1)
              (Sends-plain (codes ")") refl))))
  Begins-command_body (CommandBody.move sequence_set mailbox uid) h =
      Begins-if uid (codes "MOVE") (codes " ") refl (
        Sends->> (Sends-sequence_set packages.iteration_order sequence_set)
          (Sends->> (Sends-plain (codes " ") refl) (Sends-mailbox mailbox h)))

  pub Sends-command_body :
      (body : CommandBody NaiveDate DateTime)
      → IsEncodableBody body
      → Sends (encode_command_body packages body)
  Sends-command_body body h = Begins-Sends (Begins-command_body body h)
