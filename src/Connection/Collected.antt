-- ===== src/Connection/Collected.antt =====
-- internal/shard.go, ChunkGuild: it ends when all chunks have come.
use sandwich_daemon.Base.{
  ℕ, suc, ◌+◌, ◌≤◌, ◌<◌, ltb, Bool, true, false, ◌||◌, Option, none, some, List, [], ◌∷◌, ℤ, pos,
  inc_int32, ite, ◌≡◌, ◌≢◌, refl, ap, arith, lt→ltb, ltb→lt, Bool-cases, inl, inr, if_pos, if_neg,
}
use sandwich_daemon.CsMap.{CsMap}
use sandwich_daemon.Cache.{Cache}
use sandwich_daemon.Discord.{Snowflake}
use sandwich_daemon.Strconv.{Bytes, same_bytes}
use sandwich_daemon.State.{SandwichState}
use sandwich_daemon.Connection.{Connection, request_guild_members, SentPayload, sent, emit}
use sandwich_daemon.Connection.Connect.{Attempt, write_payload}
use sandwich_daemon.Connection.Reconnect.{write_json, with_connection, ended, send_event}
use sandwich_daemon.Connection.Chunks.{
  ChunkEvent, chunk, timeout, received_all, collect, GuildChunks, chunked, chunk_guild,
  after_request, end_chunking, needs_chunking,
}

-- The chunks with the nonce.
abbrev pub matching : Bytes → List ChunkEvent → ℕ
matching nonce [] = 0
matching nonce (timeout ∷ events) = matching nonce events
matching nonce (chunk n count ∷ events) =
    ite (same_bytes n nonce) (suc (matching nonce events)) (matching nonce events)

-- No timeout, and each chunk with the nonce announces `total` chunks.
pub data AreChunks (nonce : Bytes) (total : ℕ) : List ChunkEvent → Type 0 where
  no_events : AreChunks nonce total []
  own_chunk :
      (events : List ChunkEvent)
      → AreChunks nonce total events
      → AreChunks nonce total (chunk nonce (pos total) ∷ events)
  other_chunk :
      (n : Bytes) (count : ℤ) (events : List ChunkEvent)
      → n ≢ nonce
      → AreChunks nonce total events
      → AreChunks nonce total (chunk n count ∷ events)

inc_int32-pos : (n : ℕ) → n < 2147483647 → inc_int32 (pos n) ≡ pos (suc n)
unfolding inc_int32
inc_int32-pos n h = rw (lt→ltb n 2147483647 h) refl

reached :
    (received total : ℕ)
    → received < total
    → ltb (suc received + 0) (total + 0) ≡ false
    → suc received ≡ total
reached received total h e = ground (arith, h, e)

collect-from :
    (nonce : Bytes) (total received : ℕ) (t : ℤ) (events : List ChunkEvent)
    → AreChunks nonce total events
    → received < total
    → total ≤ 2147483647
    → total ≤ received + matching nonce events
    → collect nonce (pos received) t events ≡ received_all (pos total) (pos total)
unfolding collect
collect-from nonce total received t [] no_events h b m = absurd (omega (arith, h, m))
collect-from nonce total received t _ (own_chunk events k) h b m =
    let own : matching nonce (chunk nonce (pos total) ∷ events) ≡ suc (matching nonce events) =
      if_pos (same_bytes nonce nonce) refl _ _ in
    rw (if_pos (same_bytes nonce nonce) refl, inc_int32-pos received (omega (arith, h, b)))
      (elim (Bool-cases (ltb (suc received + 0) (total + 0))) [
        | inl e ↦ rw e (
            collect-from nonce total (suc received) (pos total) events k
              (omega (arith, ltb→lt (suc received + 0) (total + 0) e)) b (omega (arith, m, own)))
        | inr e ↦ rw e (ap (λ x. received_all (pos x) (pos total)) (reached received total h e))
      ])
collect-from nonce total received t _ (other_chunk n count events d k) h b m =
    let other : matching nonce (chunk n count ∷ events) ≡ matching nonce events =
      if_neg (same_bytes n nonce) d _ _ in
    rw (if_neg (same_bytes n nonce) d)
      (collect-from nonce total received t events k h b (omega (arith, m, other)))

write_json-request :
    (c : Option ℕ) (n : ℕ) (attempts : List Attempt) (p : SentPayload) (s : Connection)
    → c ≡ some n
    → write_json c none attempts p s ≡ ended attempts none (emit (sent p) s)
unfolding write_json with_connection write_payload
write_json-request none n attempts p s e = absurd (ground arith)
write_json-request (some m) n attempts p s e = refl

module _ ⦃lib : CsMap⦄ where
  -- A guild that needs chunking, or is always chunked, is chunked by ChunkGuild on a shard with a websocket: it writes the request and returns true as soon as as many chunks with its nonce have come as each of them announces, at least one, whatever chunks with other nonces came between, if there was no timeout.
  pub chunk_guild-returns :
      (ss : SandwichState) (table : Cache Snowflake GuildChunks) (guild_id : Snowflake)
      (always_chunk : Bool) (nonce : Bytes) (attempts : List Attempt) (events : List ChunkEvent)
      (s : Connection) (n total : ℕ)
      → (needs_chunking ss guild_id || always_chunk) ≡ true
      → s.ws_conn ≡ some n
      → 0 < total
      → total ≤ 2147483647
      → AreChunks nonce total events
      → total ≤ matching nonce events
      → (chunk_guild ss table guild_id always_chunk nonce none attempts events s).1
        ≡ chunked true attempts (emit (sent (request_guild_members guild_id nonce)) s)
  unfolding chunk_guild send_event after_request end_chunking
  chunk_guild-returns ss table guild_id always_chunk nonce attempts events s n total e c h b k m =
      rw
        (
          e,
          write_json-request s.ws_conn n attempts (request_guild_members guild_id nonce) s c,
          collect-from nonce total 0 (pos 0) events k h b (omega (arith, m)),
        )
        refl
