-- ===== src/Dedupe/Keys.antt =====
-- The dedupe keys of internal/dedupe.go name one kind of event, one guild and one member.
use sandwich_daemon.Base.{◌≡◌, ◌∷◌, ◌++◌, arith}
use sandwich_daemon.Discord.{Snowflake}
use sandwich_daemon.Strconv.{colon, format_int}
use sandwich_daemon.Strconv.Decimal.{format_int-inj, format_int-HasNoColon, colon-inj}
use sandwich_daemon.Dedupe.{create_dedupe_member_add_key, create_dedupe_member_remove_key}

ids-inj :
    (g u h v : Snowflake)
    → format_int g ++ colon ∷ format_int u ≡ format_int h ++ colon ∷ format_int v
    → (g ≡ h) × (u ≡ v)
ids-inj g u h v e =
    let (p, q) =
      colon-inj (format_int g) (format_int u) (format_int h) (format_int v)
        (format_int-HasNoColon g) (format_int-HasNoColon h) e in
    (format_int-inj g h p, format_int-inj u v q)

-- The key of an event that adds a member is the key of one guild and one member only, and so is the
-- key of an event that removes one; no key of the one kind is a key of the other.
pub dedupe_keys-inj :
    (g u h v : Snowflake)
    → (create_dedupe_member_add_key g u ≡ create_dedupe_member_add_key h v → (g ≡ h) × (u ≡ v))
      × (create_dedupe_member_remove_key g u ≡ create_dedupe_member_remove_key h v
          → (g ≡ h) × (u ≡ v))
      × (¬ (create_dedupe_member_add_key g u ≡ create_dedupe_member_remove_key h v))
unfolding create_dedupe_member_add_key create_dedupe_member_remove_key
dedupe_keys-inj g u h v =
    (λ e. ids-inj g u h v (ground arith), λ e. ids-inj g u h v (ground arith), λ e. ground arith)
