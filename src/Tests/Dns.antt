-- ===== src/Tests/Dns.antt =====
-- Runs of the name resolution, and instances of its theorems.
use mini_agent_os.Ascii.{ascii_lower}
use mini_agent_os.Base.{◌≡◌, refl, arith, false, List, [], ◌∷◌, none, some, Bytes, codes}
use mini_agent_os.Net.Dns.Cache.Fresh.{dns_cache_lookup-dns_cache_store}
use mini_agent_os.Net.Dns.Cache.Log.{
  Any, Call, IsFresh, calls, dns_cache_lookup-IsFresh, lookup, store, stores,
}
use mini_agent_os.Net.Dns.Cache.{
  Cache, Entry, bad_name, dns_cache_lookup, dns_cache_name_eq, dns_cache_store, lookup_slots,
  slot_or_next, target_loop,
}
use mini_agent_os.Net.Dns.Query.{dns_build_query-dotted, query}
use mini_agent_os.Net.Dns.Response.{DnsName, Message, dns_parse_response-message_text, message_text}
use mini_agent_os.Net.Dns.{
  dns_build_query, dns_parse_response, found, is_label_char, label_chars, put_end, put_label,
  put_labels,
}

abbrev free : Entry
free = record { name = []; ip = []; expiry_ms = 0; valid = false }

abbrev empty : Cache
empty = record { slots = free ∷ free ∷ free ∷ free ∷ free ∷ free ∷ free ∷ free ∷ []; next = 0 }

abbrev ip : Bytes
ip = 93 ∷ 184 ∷ 216 ∷ 34 ∷ []

dns_cache_lookup-dns_cache_store_example :
    (dns_cache_lookup 60_004 (codes "A.b") (dns_cache_store 5 (codes "a.B") ip empty)).0 ≡ some ip
unfolding ascii_lower
dns_cache_lookup-dns_cache_store_example =
    dns_cache_lookup-dns_cache_store 5 60_004 (codes "a.B") (codes "A.b") ip empty refl refl
      (omega arith) (omega arith) (omega arith) (omega arith)

abbrev some_calls : List Call
some_calls =
    store (record { at = 5; name = codes "a.b"; ip = ip })
    ∷ lookup 70_000 (codes "x.y")
    ∷ store (record { at = 70_000; name = codes "c.d"; ip = 10 ∷ 0 ∷ 0 ∷ 1 ∷ [] })
    ∷ []

some_calls_answer :
    (dns_cache_lookup 70_001 (codes "C.d") (calls some_calls empty)).0 ≡ some (10 ∷ 0 ∷ 0 ∷ 1 ∷ [])
unfolding ascii_lower bad_name dns_cache_lookup dns_cache_name_eq dns_cache_store lookup_slots
    slot_or_next target_loop
some_calls_answer = refl

dns_cache_lookup-IsFresh_example :
    Any (IsFresh 70_001 (codes "C.d") (10 ∷ 0 ∷ 0 ∷ 1 ∷ [])) (stores some_calls [])
dns_cache_lookup-IsFresh_example =
    dns_cache_lookup-IsFresh some_calls 70_001 (codes "C.d") (10 ∷ 0 ∷ 0 ∷ 1 ∷ []) empty
      (refl, (refl, (refl, (refl, (refl, (refl, (refl, (refl, tt)))))))) some_calls_answer

abbrev site : DnsName
site = record { labels = codes "a" ∷ codes "io" ∷ []; pointer = none }

-- An alias, then the address.
abbrev reply : Message
reply = record {
  id = 0x1234;
  flags = 0x8180;
  questions = record { name = site; qtype = 1; qclass = 1 } ∷ [];
  resources =
      record {
        name = record { labels = []; pointer = some 12 };
        typ = 5;
        class = 1;
        ttl_high = 0;
        ttl_low = 60;
        content = 1 ∷ b'b' ∷ 192 ∷ 14 ∷ [];
      }
      ∷ record {
        name = record { labels = codes "b" ∷ []; pointer = some 14 };
        typ = 1;
        class = 1;
        ttl_high = 0;
        ttl_low = 60;
        content = ip;
      }
      ∷ [];
  others = 0;
  extras = 0;
}

dns_parse_response-message_text_example :
    dns_parse_response (message_text reply (codes "end")) 0x1234 ≡ found ip
dns_parse_response-message_text_example =
    dns_parse_response-message_text reply (codes "end") 0x1234 (record {
      each = (
        record {
          each = ((omega arith, omega arith), ((omega arith, omega arith), tt));
          few = omega arith;
        },
        tt,
      );
      every = (
        record { named = record { each = tt; few = omega arith }; fits = omega arith },
        (
          record {
            named = record { each = ((omega arith, omega arith), tt); few = omega arith };
            fits = omega arith;
          },
          tt,
        ),
      );
    })

dns_build_query-dotted_example :
    dns_build_query 512 (codes "a.io") 7 ≡ message_text (query (codes "a" ∷ codes "io" ∷ []) 7) []
unfolding label_chars is_label_char
dns_build_query-dotted_example =
    dns_build_query-dotted 512 7 (codes "a") (codes "io" ∷ [])
      (
        record { size = (omega arith, omega arith); chars = refl },
        (record { size = (omega arith, omega arith); chars = refl }, tt),
      )
      (omega arith)

query_run : dns_build_query 512 (codes "a..b") 7 ≡ []
unfolding dns_build_query put_end put_labels put_label label_chars is_label_char
query_run = refl
