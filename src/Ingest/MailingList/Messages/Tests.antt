-- ===== src/Ingest/MailingList/Messages/Tests.antt =====
-- Ids of messages (bkb-ingest/src/sources/mailing_list.rs: extract_message_id, raw_message_url).
use bitcoin_knowledge_base.Base.{◌≡◌, refl, strip_prefix, split_once, rsplit_once, last_segment}
use bitcoin_knowledge_base.Ingest.MailingList.Messages.{raw_message_url, extract_message_id}

ids :
    (extract_message_id "https://gnusha.org/pi/bitcoindev/a/b@c/" "bitcoindev" ≡ "a/b@c")
    × (extract_message_id "https://gnusha.org/other/b@c" "bitcoindev" ≡ "b@c")
    × (raw_message_url "https://gnusha.org/pi/bitcoindev/b@c//"
        ≡ "https://gnusha.org/pi/bitcoindev/b@c/raw")
unfolding extract_message_id raw_message_url split_once last_segment rsplit_once strip_prefix
ids = (refl, refl, refl)
