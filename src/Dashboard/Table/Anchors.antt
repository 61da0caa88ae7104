-- ===== src/Dashboard/Table/Anchors.antt =====
-- The anchors of the rows of tests.
use irctest.Base.{ℕ, ◌≡◌, ◌+◌, ◌*◌, ◌/◌, List, Text, length}
use irctest.Dashboard.Results.{Digests}

-- The digests have 16 bytes, and Base64 writes three bytes as four characters, with padding.
pub record IsMd5 (l : Digests) : Type 0 where
  pub digest_size : (text : Text) → length (l.md5 text) ≡ 16
  pub encoded_size :
      (bytes : List ℕ) → length (l.urlsafe_b64encode bytes) ≡ 4 * ((length bytes + 2) / 3)
