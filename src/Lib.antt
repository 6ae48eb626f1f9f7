-- ===== src/Lib.antt =====
-- LuckyScratch: scratch-card pools on chain with encrypted prizes. This library models the core of
-- the web client in packages/nextjs, and of the code it depends on only what its properties need.
--
-- Parts and files
--   Types        packages/nextjs/services/luckyScratch/types.ts: the backend's responses, as
--                records.
--   Money        packages/nextjs/services/luckyScratch/poolMath.ts: micro-USDC, the bond of a
--                pool.
--   Contract     packages/hardhat/contracts/luckyScratch/libraries/PoolMathLib.sol:
--                validatePrizeEconomics and computeBondRequirement, which the client has to
--                agree with.
--   CreatePool   packages/nextjs/components/create-pool/CreatePoolPage.tsx: the form, its
--                figures and validation; Tiers: the edits of the prize tiers; Sent and Submit:
--                handleCreatePool; Sums, Economics and Runs: its theorems; Authorize: the button for
--                the treasury.
--   TicketCache  packages/nextjs/services/luckyScratch/ticketCache.ts: decrypted rewards in
--                local storage; Keys, Laws and Batch: its theorems.
--   Claim        packages/nextjs/services/luckyScratch/claim.ts: the proof of a decrypted
--                reward.
--   Relayer      packages/nextjs/services/fhevm/sdk.ts: errors and the retry loop; Url:
--                addresses of the relayer; Loader: the three kept promises and the poll; Retry:
--                the theorem of the loop; Runtime: FhevmRuntimeProvider.tsx beside it; Instance:
--                the configuration of an instance.
--   Ipfs         packages/nextjs/services/luckyScratch/config.ts: addresses of the backend and
--                of files on IPFS.
--   Vault        packages/nextjs/components/my-tickets/MyTicketsVault.tsx: tabs, search and
--                totals; Fetch: the loop that reads all tickets; Pages; Selection; View: the
--                page, the selection and the effects on them, event by event; Cards; ClaimRun:
--                claimRewardMutation; Settled: its notices and the queries it makes stale.
--   Purchase     packages/nextjs/components/purchase/PurchasePage.tsx: the selection and its
--                conditions; Prizes: the list of prizes; Selection; Handler: handlePurchase;
--                Runs and Bought: its theorems; Gallery: ManualPickGallery.tsx and
--                BatchPickGallery.tsx beside it; Hint: the line of status; Canvas: ScratchCanvas.tsx and
--                Animation: PurchaseRevealAnimation.tsx, which no page mounts yet, with their Laws.
--   Store        packages/nextjs/app/store/page.tsx: filters, orders and pages of the pools.
--   Scratch      packages/nextjs/components/scratch/ScratchPage.tsx: parseTicketIds and
--                prepareScratchResults past its early returns; Laws: its theorem; Page: the
--                early returns, the effect that starts a preparation, the retry; Links: the links
--                that lead here.
--   Reveal       Single: packages/nextjs/components/scratch/SingleScratchView.tsx; Batch:
--                BatchScratchView.tsx beside it, a step for each event; Canvas: how much of a
--                coating is off. Batch/Marks, Timers, Answers, Laws, Keeps, Finish, Once, Shut and
--                Opening: its theorems.
--   Faucet       packages/nextjs/components/faucet/CusdcFaucetPage.tsx; Handlers: its buttons.
--   Pools        packages/nextjs/components/profile/MyPoolsPanel.tsx: the actions of a pool's
--                creator; Listing: search, order and progress; Refresh: which queries of Queries
--                an action makes stale; Laws also has the checks of the contract's functions in
--                packages/hardhat/contracts/luckyScratch/LuckyScratchCore.sol.
--   Queries      packages/nextjs/hooks/luckyScratch/useLuckyScratchQueries.ts: keys of queries;
--                Stale: which queries an invalidated key reaches.
--   Api          packages/nextjs/services/luckyScratch/api.ts: errors and paths; Search: query
--                texts; Tiers and Pools: what is read into records; Posts: the small posts, the
--                upload, drafts and documents.
--   Display      packages/nextjs/services/luckyScratch/display.ts: names, themes, rarity; Hash;
--                Cover: the picture of a pool without one.
--   Settings     packages/nextjs/components/profile/SettingsPanel.tsx.
--   Rankings     packages/nextjs/components/rankings/PoolRankingsPage.tsx: ladder and podium.
--   Profile      packages/nextjs/app/profile/page.tsx: labels and level; Overview:
--                packages/nextjs/components/profile/OverviewPanel.tsx: the decryption of the
--                balance, figures, the list of what happened last; Laws: its theorems.
--   Home         packages/nextjs/components/home: the pools that the two sections show, the
--                ticker and the status.
--   Deploy       packages/hardhat/deploy/02_deploy_lucky_scratch.ts: the calls of a deployment;
--                Env: what it reads from the environment; Laws: its theorems.
--   Prelude      lists, texts, decimals, sorting and integers as JavaScript has them.
--   Samples      concrete records for the tests, which stand in a module Tests of each part.
--
-- How the parts interact: CreatePool sends what Contract checks. Vault.ClaimRun and Scratch read
-- and write TicketCache and call Claim, whose relayer instance Relayer makes. Vault.Fetch reads
-- the pages that the backend serves (packages/backend/api/server.go). Reveal.Batch.Opening joins the
-- batch view to the page of Scratch, which answers its calls. Pools sends what Pools.Laws has the
-- contract check, and Pools.Refresh and Vault.Settled hold invalidated keys against Queries. Faucet reads the
-- relayer's clear values as Claim does, and so does Profile.Overview. Settings and Rankings use the
-- names of Display. Deploy links the contracts that the client calls.
--
-- Conventions
--   A handler with calls is a function of what each call answers, a parameter; `none` or an error is
--   a call that throws. It returns its calls in their order, or the state it leaves, and its outcome.
--   Promises are taken when they have settled, and a run reads one time and one query result, but for
--   a refetch that is named. A number that may have a fraction is counted in billionths, exactly: an
--   amount of USDC that the user types, and in the form of CreatePool also the counts of tickets, of
--   sub-pools and of a tier, which the inputs clamp from below only; sums of amounts times counts are
--   in billionths of a micro-USDC there. Other amounts in micro-USDC, other counts and basis points are
--   whole numbers as in the source. Texts are lists of UTF-16 code units, and toLowerCase changes ASCII letters only. Statuses are data, with a case for any
--   other string where the source compares them. A JavaScript Map or Record is an association list, a
--   Set is a list, in the order of insertion where that matters. Amounts stay below 2^53 wherever the
--   source makes a Number of them, and a level of the profile is divided exactly.
--   In Reveal, Purchase.Canvas and Purchase.Animation an event is a pointer's, a click, an answer, a
--   timer or new properties; after each the effects run, and events come in any order. In Vault.View
--   the effects of one render read what was rendered, and what they set last holds in the next.
--   An int32 is the number of its 32 bits without a sign. A number in a JSON answer counts in units of 10^-9.
--
-- Bounds and fuel
--   Vault.Fetch.list_pages takes the fifty pages of the source's own loop. The retry loop has the
--   three rounds of the source. The poll for the SDK has fuel for 151 polls, which is enough, since
--   the source waits 100 ms or more between polls and gives up after 15 seconds. Decimal digits have
--   fuel for one digit more than the number's value.
--
-- Not modelled
--   The Go backend but for one page of tickets, and the contracts but for the functions above: they are
--   other programs. The wallet's encoder of a call, which refuses a number with a fraction or one too
--   large for its width: Contract has the widths, and CreatePool.Economics says when the counts are
--   whole. Rendering, styles, labels, notifications of progress,
--   the drawing of coatings and particles, and animations, which are taken as ended. The refetches that
--   react-query makes by itself, and the bodies of the backend's larger posts. The player rankings and
--   the pool's detail, which mostly render one query's result, and the hooks and utilities of the
--   scaffold, a copy of another project.
pub mod Prelude
pub mod Api
pub mod Claim
pub mod Contract
pub mod CreatePool
pub mod Deploy
pub mod Display
pub mod Faucet
pub mod Home
pub mod Ipfs
pub mod Money
pub mod Pools
pub mod Profile
pub mod Purchase
pub mod Queries
pub mod Rankings
pub mod Relayer
pub mod Reveal
pub mod Samples
pub mod Scratch
pub mod Settings
pub mod Store
pub mod TicketCache
pub mod Types
pub mod Vault
