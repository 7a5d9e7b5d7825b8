-- ===== src/Lib.antt =====
-- The server of Aamenn, a store for encrypted files: the rows of its database, and the services
-- that keep the folder tree, the files and their objects in a bucket, shared links, the uploads,
-- the payments, the subscriptions, the accounts and sessions of users, and the one-time passwords.
--
-- Base holds the shared names, tests and results; Table is a database table, a list of rows with
-- a key, with the queries and writes of a TypeORM repository that the services use. The services
-- rely on its documented behaviour only: `save` overwrites the row with the key or inserts it,
-- `find` returns the rows that satisfy a test, and soft deletion sets a time.
--
-- Entities: src/database/entities. A row has the fields of its class; ids are numbers, a time is
-- a number of milliseconds in UTC, a nullable column is an option. Relations are ids.
--
-- Cache: src/modules/cache/cache.service.ts, the versions that a change of files bumps, the
-- counter of failures of Redis, and the cached values with their times.
--
-- Folders: src/modules/folders/folders.service.ts. Folders.Store has the queries and the private
-- helpers (verifyFolderOwnership, isFolderDescendant, collectDescendantFolderIds), and
-- Folders.Service the handlers createFolder, updateFolder, moveFolderToFolder, deleteFolder,
-- restoreFolder, deleteFolderPermanently, moveFilesToFolder. A handler takes the store and
-- returns an exception or the result with the new store. The traversal runs on fuel, one more
-- than there are rows, and fails with `stuck` when it runs out, which a tree of folders with
-- unique ids does not reach; isFolderDescendant stops at 50 levels as its source does. The
-- cache's versions of a user change with every write of folders, as the source asks for.
-- Folders.Views has what only reads: getFolder, listFolders, getBreadcrumbs, getLibrary,
-- getAllFilesInFolder.
--
-- Files: src/modules/files/files.service.ts and trash-cleanup.service.ts. Files.Store has the
-- repositories, the tests of the queries and verifyFileOwnership; Files.Service the handlers that
-- make and change files (uploadAvatar, uploadFileProxy, uploadFileWithThumbnails, updateFile);
-- Files.Reads the queries (checkDuplicate, getFilesBatch, listFiles, resolveContentSource, getFile,
-- listTrash, getStorageUsage); Files.Trash both ways to the trash, back, and for good, with
-- hasOtherActiveReferences; Files.Cleanup the daily job. Several rows may refer to one object of
-- the bucket. Storage has the paths that src/modules/storage/b2-storage.service.ts is asked to
-- delete; a drive collects them, whether the object store succeeds or not, since a failure is
-- caught. Signed URLs and the log of downloads are left out; a test says for which files the
-- object store signs all URLs. Of rows with equal times a sorted query may return any order: what
-- the database does for listFiles is an argument, with its documented behaviour in Files.Newest;
-- the other sorted queries keep the order of an insertion sort.
--
-- Shares: src/modules/shares/shares.service.ts. Shares.Store has the look-up of a link by its
-- slug, verifyOwnership and the walk up the folders with its set of visited ids, on fuel of two
-- more than there are folders; Shares.Slugs generateUniqueSlug, with texts as lists of code
-- points, on fuel of one more than there are slugs; Shares.Service the handlers. Saving a file
-- from a link makes a row for the same objects, so that shares and files act on one table.
--
-- Users: src/modules/users/users.service.ts in Users.Service: findOrCreate, the profile, the
-- security record, the token for the API of Google, and the deletion of an account.
--
-- Auth: src/modules/auth/auth.service.ts. Auth.Service has login, googleLogin, refresh,
-- generateTokens, logout, logoutAll and parseExpiration; Auth.Registration sendSignupOtp and
-- register, where what register does not wait for is a step of its own (Auth.Abuse for
-- signup-abuse.service.ts, Auth.Addresses for ip-lookup.service.ts and
-- src/common/guards/signup-ip-limit.guard.ts); Auth.Reset the four steps of a vault reset with the
-- reset sessions of otp.service.ts and src/modules/vault/vault-security.service.ts; which row a
-- look-up of a refresh token returns, where several fit, is an argument (Auth.Rotation says what is
-- relied on);
-- Auth.Validators src/common/validators/crypto.validator.ts. Signing, hashing, deriving keys and
-- the length of decoded base64 are arguments.
--
-- Admin: src/modules/admin/admin.service.ts: Admin.Management has what changes accounts and plans
-- and the list of flagged signups, Admin.Statistics the dashboard, the list of users, the health
-- of the system and the alerts. Months begin where the calendar says, which is an argument.
--
-- Payments: src/modules/payments/payments.service.ts in Payments.Store, Payments.Service (the
-- webhook and activateSubscription) and Payments.Lifecycle (checkout, renewal, the hourly jobs).
-- A handler returns what it returned or threw together with the ledger, since writes before an
-- exception stay. src/modules/payments/instapay.service.ts in Payments.Screenshots and
-- Payments.Instapay: a submission of a manual payment, its review, and the jobs on it; an
-- approval activates a plan by the same activateSubscription, and fails where the text of the
-- payment's method exceeds its column. Not modelled: the lengths of other columns, mails, logs, the
-- client of Paymob, whose answers are arguments, and the check of its signature.
--
-- Uploads: src/modules/uploads/uploads.service.ts. Uploads.Store has the tables and the quota,
-- Uploads.Service the handlers startUpload, recordPart, completeUpload, cancelUpload,
-- getSessionStatus, expireStaleSessions, deleteAllForUser. Answers of the object store are
-- arguments, and a failed call is an error that stops the handler where the source awaits it. The
-- part number of recordPart is any value of a request body, since nothing checks its type.
--
-- Otp: src/modules/otp/otp.service.ts, generateOtp and verifyOtp, with the two Redis keys of one
-- purpose and one address in lower case as the state.
--
-- A handler runs as one step: two requests do not interleave within one. Sequences of requests
-- and jobs are explicit, as relations on states.
--
-- Not modelled: controllers, the checks of request bodies, the numbers of the storage by type of file, contacts
-- and feedback, the clients of the object store and of Paymob, mails, scripts, and all wiring.
pub mod Base
pub mod Table
pub mod Entities
pub mod Cache
pub mod Storage
pub mod Folders
pub mod Payments
pub mod Uploads
pub mod Otp
pub mod Files
pub mod Shares
pub mod Users
pub mod Auth
pub mod Admin
