-- ===== src/Singularity/Containers/Replies.antt =====
-- The reply of the shell of a container is read.
use ldms_test.Base.{Text, ◌++◌, nat_eq}
use ldms_test.Singularity.Containers.{rc_mark, end_mark}

-- What stands behind the output of a command.
abbrev pub reply : Text → Text
reply digits = rc_mark ++ (digits ++ end_mark)
