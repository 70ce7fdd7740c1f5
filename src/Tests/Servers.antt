-- ===== src/Tests/Servers.antt =====
-- The stderr of an MCP server.
use cronfoundry.Prelude.{ℕ, ◌-◌, ◌≡◌, List, [], ◌∷◌, ◌++◌, length, drop}
use cronfoundry.Mcp.RingBuf.{size, zeros, fresh, drain, snapshot}
use cronfoundry.Mcp.RingBuf.Tail.{concat, snapshot-drain}

-- more than the buffer holds
abbrev chunks : List (List ℕ)
chunks = zeros 1000 ∷ (zeros 30 ++ 7 ∷ []) ∷ []

snapshot-drain_example :
    snapshot (drain chunks fresh) ≡ drop (length (concat chunks) - size) (concat chunks)
snapshot-drain_example = snapshot-drain chunks
