-- ===== src/Landing/Tips.antt =====
-- landing/tips.go: the tip accounts of each lane, and the test for a bare tip transaction.
pub mod Bare
pub mod Jito
use epochfill.Common.{
  ℕ, Bool, true, false, List, [], ◌∷◌, ◌||◌, nat_eq, all_of, text_eq, text_equality, if◌then◌else◌,
}
use epochfill.Go.Map.{Map}
use epochfill.Go.Text.{GoString, bytes_of, split, trim_space}

abbrev pub lane_jito : GoString
lane_jito = bytes_of "jito"

abbrev pub lane_bloxroute : GoString
lane_bloxroute = bytes_of "bloxroute"

abbrev pub lane_helius : GoString
lane_helius = bytes_of "helius"

abbrev pub lane_nozomi : GoString
lane_nozomi = bytes_of "nozomi"

unfoldable pub tip_accounts : Map GoString GoString
tip_accounts =
    (bytes_of "ADuUkR4vqLUMWXxW9gh6D6L8pMSawimctcNZ5pGwDcEt", lane_jito)
    ∷ (bytes_of "DttWaMuVvTiduZRnguLF7jNxTgiMBZ1hyAumKUiL2KRL", lane_jito)
    ∷ (bytes_of "ADaUMid9yfUytqMBgopwjb2DTLSokTSzL1zt6iGPaS49", lane_jito)
    ∷ (bytes_of "96gYZGLnJYVFmbjzopPSU6QiEV5fGqZNyN9nmNhvrZU5", lane_jito)
    ∷ (bytes_of "3AVi9Tg9Uo68tJfuvoKvqKNWKkC5wPdSSdeBnizKZ6jT", lane_jito)
    ∷ (bytes_of "DfXygSm4jCyNCybVYYK6DwvWqjKee8pbDmJGcLWNDXjh", lane_jito)
    ∷ (bytes_of "Cw8CFyM9FkoMi7K7Crf6HNQqf4uEMzpKw6QNghXLvLkY", lane_jito)
    ∷ (bytes_of "HFqU5x63VTqvQss8hp11i4wVV8bD44PvwucfZ2bU7gRe", lane_jito)
    ∷ (bytes_of "3UQUKjhMKaY2S6bjcQD6yHB7utcZt5bfarRCmctpRtUd", lane_bloxroute)
    ∷ (bytes_of "FogxVNs6Mm2w9rnGL1vkARSwJxvLE8mujTv3LK8RnUhF", lane_bloxroute)
    ∷ (bytes_of "bLx7MvxGaKdKL7mEbpk9tC79z6MnBSJoJkuaEAPu6Nd", lane_bloxroute)
    ∷ (bytes_of "bLx7XBqSg3LUPVf1bRgCnkJmgVZR8QEgDJBPqcRLHvp", lane_bloxroute)
    ∷ (bytes_of "bLx8KeZxinPwy6kkUgyzMLeqb2ARNsWjADG1dhSsVba", lane_bloxroute)
    ∷ (bytes_of "bLxADBknoNj8WAGw2W6GBYeq848Xx6ajhaymV1YvrHm", lane_bloxroute)
    ∷ (bytes_of "bLxAc88vRBwvcUQJEgcxNfBLvHPikY4csNsUmPeWea2", lane_bloxroute)
    ∷ (bytes_of "bLxQ88oCiTsL8Xj4YWekKi1hjrgmbE3J3FFZ2xZHR3h", lane_bloxroute)
    ∷ (bytes_of "bLxS7NoLuynNRJ4mCnEE2YbtwJFttYsEyp2ME7rp2yt", lane_bloxroute)
    ∷ (bytes_of "bLxW6mCov7VEbrKc3S9tcBRcfSzRnLCbNp3Dfn3SJG5", lane_bloxroute)
    ∷ (bytes_of "bLxXSGXs4mYPTC5okZXed1qzvjNwNJ48QJ82hT2V7w7", lane_bloxroute)
    ∷ (bytes_of "bLxYi3vojbbB7hVzVDVTdBLVPhp7GJ3ZB3BwdK5sFXi", lane_bloxroute)
    ∷ (bytes_of "bLxhLPgBXtUpX4b1bH3HatuMGMSKT9GnwtuCGiMSAqe", lane_bloxroute)
    ∷ (bytes_of "bLxpY1mniuFW4PgkNA4JiNxoeKHFszryi6tNgyZAiAA", lane_bloxroute)
    ∷ (bytes_of "bLxuETxd2tgWxBALNwPzAfHhsik4BzD3nrEBCiPNZQD", lane_bloxroute)
    ∷ (bytes_of "bLxuL2gK5FW7xfahvwLrxLyW76vcCpNsKQY2CmnE6kV", lane_bloxroute)
    ∷ (bytes_of "bLxv4Hnub7nDJWHs8s17o9bGU65Bnx6Yqp2fqtMgHmm", lane_bloxroute)
    ∷ (bytes_of "4ACfpUFoaSD9bfPdeu6DBt89gB6ENTeHBXCAi87NhDEE", lane_helius)
    ∷ (bytes_of "D2L6yPZ2FmmmTKPgzaMKdhu6EWZcTpLy1Vhx8uvZe7NZ", lane_helius)
    ∷ (bytes_of "9bnz4RShgq1hAnLnZbP8kbgBg1kEmcJBYQq3gQbmnSta", lane_helius)
    ∷ (bytes_of "5VY91ws6B2hMmBFRsXkoAAdsPHBJwRfBht4DXox3xkwn", lane_helius)
    ∷ (bytes_of "2nyhqdwKcJZR2vcqCyrYsaPVdAnFoJjiksCXJ7hfEYgD", lane_helius)
    ∷ (bytes_of "2q5pghRs6arqVjRvT5gfgWfWcHWmw1ZuCzphgd5KfWGJ", lane_helius)
    ∷ (bytes_of "wyvPkWjVZz1M8fHQnMMCDTQDbkManefNNhweYk5WkcF", lane_helius)
    ∷ (bytes_of "3KCKozbAaF75qEU33jtzozcJ29yJuaLJTy2jFdzUY8bT", lane_helius)
    ∷ (bytes_of "4vieeGHPYPG2MmyPRcYjdiDmmhN3ww7hsFNap8pVN3Ey", lane_helius)
    ∷ (bytes_of "4TQLFNWK8AovT1gFvda5jfw2oJeRMKEmw7aH6MGBJ3or", lane_helius)
    ∷ (bytes_of "TEMPaMeCRFAS9EKF53Jd6KpHxgL47uWLcpFArU1Fanq", lane_nozomi)
    ∷ (bytes_of "noz3jAjPiHuBPqiSPkkugaJDkJscPuRhYnSpbi8UvC4", lane_nozomi)
    ∷ (bytes_of "noz3str9KXfpKknefHji8L1mPgimezaiUyCHYMDv1GE", lane_nozomi)
    ∷ (bytes_of "noz6uoYCDijhu1V7cutCpwxNiSovEwLdRHPwmgCGDNo", lane_nozomi)
    ∷ (bytes_of "noz9EPNcT7WH6Sou3sr3GGjHQYVkN3DNirpbvDkv9YJ", lane_nozomi)
    ∷ (bytes_of "nozc5yT15LazbLTFVZzoNZCwjh3yUtW86LoUyqsBu4L", lane_nozomi)
    ∷ (bytes_of "nozFrhfnNGoyqwVuwPAW4aaGqempx4PU6g6D9CJMv7Z", lane_nozomi)
    ∷ (bytes_of "nozievPk7HyK1Rqy1MPJwVQ7qQg2QoJGyP71oeDwbsu", lane_nozomi)
    ∷ (bytes_of "noznbgwYnBLDHu8wcQVCEw6kDrXkPdKkydGJGNXGvL7", lane_nozomi)
    ∷ (bytes_of "nozNVWs5N8mgzuD3qigrCG2UoKxZttxzZ85pvAQVrbP", lane_nozomi)
    ∷ (bytes_of "nozpEGbwx4BcGp6pvEdAh1JoC2CQGZdU6HbNP1v2p6P", lane_nozomi)
    ∷ (bytes_of "nozrhjhkCr3zXT3BiT4WCodYCUFeQvcdUkM7MqhKqge", lane_nozomi)
    ∷ (bytes_of "nozrwQtWhEdrA6W8dkbt9gnUaMs52PdAv5byipnadq3", lane_nozomi)
    ∷ (bytes_of "nozUacTVWub3cL4mJmGCYjKZTnE9RbdY5AP46iQgbPJ", lane_nozomi)
    ∷ (bytes_of "nozWCyTPppJjRuw2fpzDhhWbW355fzosWSzrrMYB1Qk", lane_nozomi)
    ∷ (bytes_of "nozWNju6dY353eMkMqURqwQEoM3SFgEKC6psLCSfUne", lane_nozomi)
    ∷ (bytes_of "nozxNBgWohjR75vdspfxR5H9ceC7XXH99xpxhVGt3Bb", lane_nozomi)
    ∷ []

-- The addresses of `TipAccounts` whose lane is Jito.
unfoldable pub jito_of : Map GoString GoString → List GoString
jito_of [] = []
jito_of ((address, lane) ∷ r) = if text_eq lane lane_jito then address ∷ jito_of r else jito_of r

unfoldable pub jito_tips : List GoString
unfolding jito_of tip_accounts
jito_tips = jito_of tip_accounts

unfoldable pub system_program : GoString
system_program = bytes_of "11111111111111111111111111111111"

unfoldable pub compute_budget_program : GoString
compute_budget_program = bytes_of "ComputeBudget111111111111111111111111111111"

-- A case of the switch that does not return.
abbrev pub is_overhead : GoString → Bool
is_overhead p = text_eq p [] || (text_eq p system_program || text_eq p compute_budget_program)

unfoldable pub is_bare_tip_leg : GoString → ℕ → Bool
is_bare_tip_leg programs tip_lamports =
    if nat_eq tip_lamports 0
    then false
    else all_of (λ p. is_overhead (trim_space p)) (split b',' programs)
