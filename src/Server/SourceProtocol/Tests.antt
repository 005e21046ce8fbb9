-- ===== src/Server/SourceProtocol/Tests.antt =====
-- The results on a source's connection at a concrete request.
use rusty_ice.Server.Bus.{has_capacity}
use rusty_ice.Prelude.{
  ℕ, ◌≡◌, refl, true, false, Option, none, some, List, [], ◌∷◌, ◌++◌, ascii, bytes_eq, lookup,
  if◌then◌else◌, ◌+◌, ◌-◌, ◌≤◌, length, All,
}
use rusty_ice.Core.Types.{codec_eq}
use rusty_ice.Server.StreamRouter.{find_mount, mount_transcode}
use rusty_ice.Core.Config.{TranscodeFormat, starts_with}
use rusty_ice.Core.Config.Example.{plain_config}
use rusty_ice.Core.Mount.{Text, new}
use rusty_ice.Core.Mount.Registry.{get}
use rusty_ice.Server.SourceHeaders.{Headers}
use rusty_ice.Server.SourceProtocol.Credentials.{
  header, strip_prefix, between, lead, utf8, from_utf8, split_once, password_of, read_password,
  occurs_in, extract_source_password, detect_codec_from_content_type,
}
use rusty_ice.Server.SourceProtocol.Password.{extract_source_password-credentials}
use rusty_ice.Server.SourceProtocol.Admission.{
  resolve_or_create_mount, resolve_missing, create_dynamic_mount, claim_found, is_supported,
  SourceAuth, Hub, Surroundings, Request, rejected, admitted, dynamic_mount, admit_source,
  drop_guard,
}
use rusty_ice.Server.SourceProtocol.Authorized.{IsAuthorized, IsClaimed, admit_source-IsClaimed}
use rusty_ice.Server.SourceProtocol.Leaving.{
  Fits, drop_guard-admit_source, unsupported-admit_source,
}
use rusty_ice.Server.SourceProtocol.Body.{
  statuses, CountingReader, chain, Poll, poll_chain, poll_read, read_all, pending, IsLive,
  read_all-pending, upfront_response, expects_continue, is_classic_icecast, content_length,
  is_chunked,
}
use rusty_ice.Server.SourceProtocol.Head.{
  parse_round, Parse, complete, partial, Read, bytes, ParsedHead, read_request_head, IsSplit,
  data_of, read_request_head-IsSplit,
}

-- Base64 that leaves texts as they are.
abbrev plain : Text → Option (List ℕ)
plain text = some text

abbrev credentials : Text
credentials = ascii "source:hackme"

unfoldable pub headers_of : Text → Headers
headers_of content_type name =
    if bytes_eq name (ascii "authorization")
    then some (some (ascii "Basic " ++ credentials))
    else if bytes_eq name (ascii "content-type")
    then some (some content_type)
    else none

-- The global source password opens every mount.
abbrev auth : SourceAuth
auth = record {
  verify_source = λ path password. some (bytes_eq password (ascii "hackme"));
  verify_default_source = λ password. some (bytes_eq password (ascii "hackme"));
}

abbrev env : Surroundings
env = record {
  config = plain_config;
  auth = auth;
  decode = plain;
  looks = [];
  token = 7;
  now = 100;
}

abbrev hub : Hub
hub = record { mounts = []; listeners = rusty_ice.Admin.Listeners.new; cancelled = [] }

abbrev request : Text → Request
request content_type = record { path = ascii "/new"; headers = headers_of content_type }

abbrev ogg : Request
ogg = request (ascii "application/ogg")

abbrev transcoding : Surroundings
transcoding = record env {
  config = record plain_config {
    transcode =
        some (record { format = TranscodeFormat.mp3; sample_rate = 44100; bitrate_kbps = 128 });
  };
}

abbrev aac : Request
aac = request (ascii "audio/aac")

ogg_admitted : (admit_source env ogg hub).0 ≡ admitted true
unfolding admit_source resolve_or_create_mount get lookup resolve_missing create_dynamic_mount
    dynamic_mount new claim_found is_supported mount_transcode find_mount extract_source_password
    read_password header headers_of strip_prefix starts_with from_utf8 utf8 lead between password_of
    split_once has_capacity
ogg_admitted = refl

hackme_accepted : auth.verify_default_source (extract_source_password plain aac.headers) ≡ some true
unfolding extract_source_password read_password header headers_of strip_prefix starts_with from_utf8
    utf8 lead between password_of split_once
hackme_accepted = refl

aac_refused : Fits transcoding aac false
unfolding is_supported mount_transcode find_mount detect_codec_from_content_type occurs_in codec_eq
    header headers_of starts_with
aac_refused = refl

extract_source_password-credentials_example :
    extract_source_password plain ogg.headers ≡ ascii "hackme"
unfolding headers_of utf8 lead between
extract_source_password-credentials_example =
    extract_source_password-credentials plain ogg.headers credentials (ascii "source")
      (ascii "hackme") refl refl refl refl (refl, (refl, (refl, (refl, (refl, (refl, tt))))))

admit_source-IsClaimed_example :
    IsAuthorized auth ogg.path
      (extract_source_password plain ogg.headers)
      (lookup ogg.path hub.mounts)
      true
    × IsClaimed env ogg (lookup ogg.path (admit_source env ogg hub).1.mounts)
admit_source-IsClaimed_example = admit_source-IsClaimed env ogg hub true ogg_admitted

drop_guard-admit_source_example :
    (admit_source
      (record env { looks = []; token = 8; now = 200 })
      ogg
      (drop_guard true ogg.path (admit_source env ogg hub).1)).0
    ≡ admitted true
drop_guard-admit_source_example = drop_guard-admit_source env ogg hub true [] 8 200 ogg_admitted

unsupported-admit_source_example :
    ((admit_source transcoding aac hub).0 ≡ rejected 415)
    × (lookup aac.path (admit_source transcoding aac hub).1.mounts
        ≡ some (
            dynamic_mount transcoding.config aac.path (detect_codec_from_content_type aac.headers)))
unfolding lookup has_capacity
unsupported-admit_source_example =
    unsupported-admit_source transcoding aac hub refl hackme_accepted refl aac_refused

-- A parser for a head of four bytes.
abbrev four : List ℕ → Parse
four (a ∷ b ∷ c ∷ d ∷ _) = complete 4 (some (ascii "/live")) ogg.headers
four _ = partial

abbrev reads : List Read
reads = bytes (ascii "PU") ∷ bytes (ascii "T/abc") ∷ bytes (ascii "de") ∷ []

abbrev head : ParsedHead
head = record {
  path = ascii "/live";
  headers = ogg.headers;
  leftover = ascii "abc";
  rest = bytes (ascii "de") ∷ [];
}

read_request_head-IsSplit_example : IsSplit four ([] ++ data_of reads) head
unfolding read_request_head parse_round
read_request_head-IsSplit_example = read_request_head-IsSplit four [] reads head refl

-- Two bytes left over from the head, and three on the socket.
abbrev counted : CountingReader
counted = record { reader = chain (1 ∷ 2 ∷ []) (3 ∷ 4 ∷ 5 ∷ []); bytes_received = 7 }

abbrev polls : List Poll
polls =
    record { room = 8; there = 1 }
    ∷ record { room = 1; there = 3 }
    ∷ record { room = 4; there = 9 }
    ∷ []

read_all-run : (read_all polls counted).0 ≡ 1 ∷ 2 ∷ 3 ∷ 4 ∷ 5 ∷ []
unfolding poll_chain poll_read
read_all-run = refl

read_all-pending_example :
    ((read_all polls counted).0 ++ pending (read_all polls counted).1.reader
      ≡ pending counted.reader)
    × ((read_all polls counted).1.bytes_received
        ≡ counted.bytes_received + length (read_all polls counted).0)
    × (All IsLive polls
        → length (pending (read_all polls counted).1.reader)
          ≤ length (pending counted.reader) - length polls)
read_all-pending_example = read_all-pending polls counted

-- A classic source whose transcoder cannot be started is sent two final statuses.
classic_statuses : statuses (λ _. none) true ≡ 200 ∷ 503 ∷ []
unfolding statuses upfront_response expects_continue header is_classic_icecast content_length
    is_chunked
classic_statuses = refl
